-- ===== src/Snort.antt =====
-- src/snort-scan-util.c: the table of attackers and targets and what an alert of snort does to it. A
-- list of structs is a list, and a pointer to an item is its index. Snort/Alert reads the console
-- output of snort, Snort/Output prints the table, Snort/Watch is the loop with the server thread.
pub mod Alert
pub mod Output
pub mod Window
pub mod Keys
pub mod Ranked
pub mod Report
pub mod Watch
pub mod Page
pub mod Heard
pub mod Known
pub mod Short
pub mod Traffic
pub mod Line
mod Tests
use sntools.Pairs
use sntools.Pairs.{find_index}
use sntools.Base.{
  ℕ, zero, suc, ◌+◌, ◌-◌, ◌*◌, ◌%◌, ◌^◌, Bool, true, false, Option, none, some, List, [], ◌∷◌, ◌++◌,
  if◌then◌else◌, length, modify, ℤ, pos, negsuc, ◌-ℤ◌, ltb_ℤ, ltb, Bytes, str_eq,
}
use sntools.LinkedItems.{exceeds}
use sntools.LinkedItems.Bubble.{sort_list}

abbrev two_32 : ℕ
two_32 = 2 ^ 32

pub record HitCount : Type 0 where
  pub ts : ℤ
  pub hits : ℕ

pub record EventData : Type 0 where
  pub host_src : Bytes
  pub host_dst : Bytes
  pub latest_proto : Bytes
  pub latest_message : Bytes
  pub latest_prio : ℤ
  pub hit_count : List HitCount

abbrev pub is_pair : Bytes → Bytes → EventData → Bool
is_pair = Pairs.is_pair (λ item. item.host_src) (λ item. item.host_dst)

-- `find_item`: the index of the first item for the two hosts.
unfoldable pub find_item : List EventData → Bytes → Bytes → Option ℕ
unfolding find_index
find_item items src dst = find_index (is_pair src dst) items

-- `create_item`: a new last item, and its index.
unfoldable pub create_item : List EventData → Bytes → Bytes → List EventData × ℕ
create_item items src dst = (
  items
      ++ record {
        host_src = src;
        host_dst = dst;
        latest_proto = [];
        latest_message = [];
        latest_prio = pos 99;
        hit_count = [];
      }
        ∷ [],
  length items,
)

unfoldable pub add_hit : ℕ → ℤ → EventData → EventData
add_hit c ts item = record item { hit_count = item.hit_count ++ record { ts = ts; hits = c } ∷ [] }

unfoldable pub sum_loop : ℕ → List HitCount → ℕ
sum_loop sum [] = sum
sum_loop sum (c ∷ cs) = sum_loop ((sum + c.hits) % two_32) cs

unfoldable pub sum_hits : EventData → ℕ
sum_hits item = sum_loop 0 item.hit_count

-- The inner loop of `remove_hit_count_before`: what is left, and whether it has returned.
unfoldable pub remove_loop : List HitCount → ℤ → List HitCount × Bool
remove_loop [] before = ([], false)
remove_loop (c ∷ cs) before =
    let rest = remove_loop cs before in if ltb_ℤ c.ts before then rest else (c ∷ cs, true)

-- `remove_hit_count_before`, for all items at once: the return ends it for the items behind, too.
unfoldable pub remove_hit_count_before : List EventData → ℤ → List EventData
remove_hit_count_before [] before = []
remove_hit_count_before (item ∷ items) before =
    let r = remove_loop item.hit_count before in
    let rest = remove_hit_count_before items before in
    record item { hit_count = r.0 } ∷ (if r.1 then items else rest)

-- The score of `compare`: `int` plus `unsigned int`, modulo 2 ^ 32.
unfoldable pub score : EventData → ℕ
score item = elim item.latest_prio [
  | pos p ↦ (100000 + p * 10000 + sum_hits item) % two_32
  | negsuc n ↦ (100000 + (two_32 - suc n * 10000 % two_32) + sum_hits item) % two_32
]

-- `compare`, used by `linked_item_sort`.
unfoldable pub compare : EventData → EventData → ℤ
compare a b = if ltb (score b) (score a) then pos 1 else pos 0

-- What `main` reads from an alert.
pub record AlertData : Type 0 where
  pub proto : Bytes
  pub source : Bytes
  pub target : Bytes
  pub message : Bytes
  pub prio : ℤ

unfoldable pub select_item : List EventData → Bytes → Bytes → List EventData × ℕ
select_item items src dst = elim (find_item items src dst) [
  | some i ↦ (items, i)
  | none ↦ create_item items src dst
]

unfoldable pub set_latest : AlertData → EventData → EventData
set_latest a item = record item {
  latest_proto = a.proto;
  latest_message = a.message;
  latest_prio = a.prio;
}

-- The locked part of `main`'s loop, up to `create_out`.
unfoldable pub record_alert : (timespan now : ℤ) → AlertData → List EventData → List EventData
record_alert timespan now a items =
    let (items1, i) = select_item items a.source a.target in
    let items2 = remove_hit_count_before (modify i (set_latest a) items1) (now -ℤ timespan) in
    sort_list (exceeds compare) (modify i (add_hit 1 now) items2)
