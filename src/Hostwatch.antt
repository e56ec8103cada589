-- ===== src/Hostwatch.antt =====
-- src/hostwatch.c: the table of host pairs and what a packet does to it. A list of structs is a
-- list here (LinkedItems has the pointers), and a pointer to an item is its index. `time_t` and
-- `int` are integers, `unsigned long` is a number modulo 2 ^ 64. Hostwatch/Packet reads the output
-- of tcpdump, Hostwatch/Output prints the table.
pub mod Packet
pub mod Output
pub mod Report
pub mod Run
pub mod Watch
pub mod Seen
pub mod Only
pub mod Traffic
pub mod Reported
pub mod Fits
pub mod Short
pub mod Line
pub mod Window
pub mod Keys
pub mod Sorted
mod Tests
use sntools.Pairs
use sntools.Pairs.{find_index}
use sntools.Base.{
  modify, ℕ, zero, suc, ◌+◌, ◌%◌, ◌^◌, Bool, true, false, Option, none, some, List, [], ◌∷◌, ◌++◌,
  if◌then◌else◌, length, ℤ, pos, ◌-ℤ◌, ltb_ℤ, ltb, two_64, Bytes, str_eq,
}

pub record ByteCount : Type 0 where
  pub ts : ℤ
  pub bytes : ℕ

pub record HostData : Type 0 where
  pub host_a : Bytes
  pub host_b : Bytes
  pub byte_count : List ByteCount
  pub byte_sum : ℕ

abbrev pub is_pair : Bytes → Bytes → HostData → Bool
is_pair = Pairs.is_pair (λ item. item.host_a) (λ item. item.host_b)

-- `find_item`: the index of the first item for the two hosts.
unfoldable pub find_item : List HostData → Bytes → Bytes → Option ℕ
unfolding find_index
find_item items a b = find_index (is_pair a b) items

-- `create_item`: a new last item, and its index.
unfoldable pub create_item : List HostData → Bytes → Bytes → List HostData × ℕ
create_item items a b =
    (items ++ record { host_a = a; host_b = b; byte_count = []; byte_sum = 0 } ∷ [], length items)

unfoldable pub add_bytes : HostData → ℕ → ℤ → HostData
add_bytes item b ts = record item {
  byte_count = item.byte_count ++ record { ts = ts; bytes = b } ∷ [];
}

unfoldable pub sum_loop : ℕ → List ByteCount → ℕ
sum_loop sum [] = sum
sum_loop sum (c ∷ cs) = sum_loop ((sum + c.bytes) % two_64) cs

unfoldable pub update_bytes_sum : HostData → HostData
update_bytes_sum item = record item { byte_sum = sum_loop 0 item.byte_count }

-- The loop of `remove_byte_count_before`: what is left, and how many went.
unfoldable pub remove_loop : List ByteCount → ℤ → List ByteCount × ℕ
remove_loop [] before = ([], 0)
remove_loop (c ∷ cs) before =
    let rest = remove_loop cs before in
    if ltb_ℤ c.ts before then (rest.0, suc rest.1) else (c ∷ cs, 0)

unfoldable pub remove_byte_count_before : HostData → ℤ → HostData × ℕ
remove_byte_count_before item before =
    let r = remove_loop item.byte_count before in (record item { byte_count = r.0 }, r.1)

abbrev pub clean_item : HostData → ℤ → HostData
clean_item item before =
    let r = remove_byte_count_before item before in if ltb 0 r.1 then update_bytes_sum r.0 else r.0

unfoldable pub cleanup_host_data : List HostData → ℤ → List HostData
cleanup_host_data [] before = []
cleanup_host_data (item ∷ items) before = clean_item item before ∷ cleanup_host_data items before

-- The item a packet belongs to: found as it is, or reversed if the direction is ignored, or created.
unfoldable pub select_item : Bool → List HostData → Bytes → Bytes → List HostData × ℕ
select_item ignore_direction items a b = elim (find_item items a b) [
  | some i ↦ (items, i)
  | none ↦ elim (if ignore_direction then find_item items b a else none) [
    | some i ↦ (items, i)
    | none ↦ create_item items a b
  ]
]

-- What the packet does to its item.
unfoldable pub count_packet : (timespan now : ℤ) → ℕ → HostData → HostData
count_packet timespan now bytes item =
    update_bytes_sum (add_bytes (remove_byte_count_before item (now -ℤ timespan)).0 bytes now)

-- The locked part of `main`'s loop.
unfoldable pub update :
    Bool → (timespan now : ℤ) → Bytes → Bytes → ℕ → List HostData → List HostData
update ignore_direction timespan now a b bytes items =
    let r = select_item ignore_direction items a b in
    modify r.1 (count_packet timespan now bytes) r.0

-- `compare`, used by `linked_item_sort`.
unfoldable pub compare : HostData → HostData → ℤ
compare a b = if ltb a.byte_sum b.byte_sum then pos 1 else pos 0
