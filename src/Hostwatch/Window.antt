-- ===== src/Hostwatch/Window.antt =====
-- The sum of an item is the traffic inside the time span.
use sntools.Base.{
  ℕ, ◌+◌, ◌%◌, ◌<◌, ◌≡◌, refl, ap, ◌∙◌, sym, Bool, false, count, List, [], ◌∷◌, ◌++◌, arith,
  if◌then◌else◌, inl, inr, Bool-cases, ℤ, ◌-ℤ◌, ◌≤ℤ◌, ltb_ℤ, ltb, two_64, All,
}
use sntools.Hostwatch.{
  ByteCount, HostData, add_bytes, sum_loop, update_bytes_sum, remove_loop, remove_byte_count_before,
  clean_item, cleanup_host_data, count_packet,
}

-- The counts that are not older than `before`.
unfoldable pub recent : ℤ → List ByteCount → List ByteCount
recent before [] = []
recent before (c ∷ cs) = if ltb_ℤ c.ts before then recent before cs else c ∷ recent before cs

unfoldable pub traffic : List ByteCount → ℕ
traffic [] = 0
traffic (c ∷ cs) = c.bytes + traffic cs

-- In the order in which they came in, none later than `now`.
abbrev pub InOrder : ℤ → List ByteCount → Type 0
InOrder now [] = Unit
InOrder now (c ∷ cs) = (c.ts ≤ℤ now) × All (λ d. c.ts ≤ℤ d.ts) cs × InOrder now cs

-- What holds of every item of the table.
pub record IsItem (now : ℤ) (item : HostData) : Type 0 where
  pub ordered : InOrder now item.byte_count
  pub summed : item.byte_sum ≡ traffic item.byte_count % two_64

sum_loop-traffic :
    (sum : ℕ) (cs : List ByteCount) → sum < two_64 → sum_loop sum cs ≡ (sum + traffic cs) % two_64
unfolding sum_loop traffic
sum_loop-traffic sum [] h = omega arith
sum_loop-traffic sum (c ∷ cs) h =
    sum_loop-traffic ((sum + c.bytes) % two_64) cs (omega arith) ∙ omega arith

recent_unchanged :
    (before ts : ℤ) (cs : List ByteCount)
    → ltb_ℤ ts before ≡ false
    → All (λ d. ts ≤ℤ d.ts) cs
    → recent before cs ≡ cs
unfolding recent
recent_unchanged before ts [] h a = refl
recent_unchanged before ts (c ∷ cs) h (l, a) =
    let keeps : ltb_ℤ c.ts before ≡ false = ground arith in
    rw keeps (ap (◌∷◌ c) (recent_unchanged before ts cs h a))

pub remove_loop-recent :
    (before now : ℤ) (cs : List ByteCount)
    → InOrder now cs
    → (remove_loop cs before).0 ≡ recent before cs
unfolding remove_loop recent
remove_loop-recent before now [] o = refl
remove_loop-recent before now (c ∷ cs) (l, a, o) = elim (Bool-cases (ltb_ℤ c.ts before)) [
  | inl e ↦ rw e (remove_loop-recent before now cs o)
  | inr e ↦ rw e (ap (◌∷◌ c) (sym (recent_unchanged before c.ts cs e a)))
]

traffic-append :
    (cs : List ByteCount) (c : ByteCount) → traffic (cs ++ c ∷ []) ≡ traffic cs + c.bytes
unfolding traffic
traffic-append [] c = omega arith
traffic-append (d ∷ cs) c = omega (arith, traffic-append cs c)

All-recent :
    (before ts : ℤ) (cs : List ByteCount)
    → All (λ d. ts ≤ℤ d.ts) cs
    → All (λ d. ts ≤ℤ d.ts) (recent before cs)
unfolding recent
All-recent before ts [] a = tt
All-recent before ts (c ∷ cs) (l, a) = elim (Bool-cases (ltb_ℤ c.ts before)) [
  | inl e ↦ rw e (All-recent before ts cs a)
  | inr e ↦ rw e (l, All-recent before ts cs a)
]

recent-InOrder :
    (before now : ℤ) (cs : List ByteCount) → InOrder now cs → InOrder now (recent before cs)
unfolding recent
recent-InOrder before now [] o = tt
recent-InOrder before now (c ∷ cs) (l, a, o) = elim (Bool-cases (ltb_ℤ c.ts before)) [
  | inl e ↦ rw e (recent-InOrder before now cs o)
  | inr e ↦ rw e (l, All-recent before c.ts cs a, recent-InOrder before now cs o)
]

All-concat :
    (old now ts : ℤ) (b : ℕ) (cs : List ByteCount)
    → ts ≤ℤ old
    → old ≤ℤ now
    → All (λ d. ts ≤ℤ d.ts) cs
    → All (λ d. ts ≤ℤ d.ts) (cs ++ record { ts = now; bytes = b } ∷ [])
All-concat old now ts b [] h k a = (omega arith, tt)
All-concat old now ts b (c ∷ cs) h k (l, a) = (l, All-concat old now ts b cs h k a)

InOrder-concat :
    (old now : ℤ) (b : ℕ) (cs : List ByteCount)
    → old ≤ℤ now
    → InOrder old cs
    → InOrder now (cs ++ record { ts = now; bytes = b } ∷ [])
InOrder-concat old now b [] h o = (omega arith, tt, tt)
InOrder-concat old now b (c ∷ cs) h (l, a, o) =
    (omega arith, All-concat old now c.ts b cs l h a, InOrder-concat old now b cs h o)

-- A packet, on an item in order and at a time that is not earlier than its counts: the counts older
-- than the time span go, the packet is added, the sum is the traffic of what is left (modulo 2 ^ 64),
-- and the hosts stay.
pub count_packet-IsItem :
    (timespan old now : ℤ) (bytes : ℕ) (item : HostData)
    → old ≤ℤ now
    → IsItem old item
    → IsItem now (count_packet timespan now bytes item)
      × ((count_packet timespan now bytes item).byte_sum
          ≡ (traffic (recent (now -ℤ timespan) item.byte_count) + bytes) % two_64)
      × ((count_packet timespan now bytes item).host_a ≡ item.host_a)
      × ((count_packet timespan now bytes item).host_b ≡ item.host_b)
unfolding count_packet add_bytes update_bytes_sum remove_byte_count_before
count_packet-IsItem timespan old now bytes item h v =
    let left = recent (now -ℤ timespan) item.byte_count in
    let new : ByteCount = record { ts = now; bytes = bytes } in
    let e : (remove_loop item.byte_count (now -ℤ timespan)).0 ≡ left =
      remove_loop-recent (now -ℤ timespan) old item.byte_count v.ordered in
    let sum = sum_loop-traffic 0 (left ++ new ∷ []) (omega arith) in
    rw e (
      record {
        ordered =
            InOrder-concat old now bytes left h
              (recent-InOrder (now -ℤ timespan) old item.byte_count v.ordered);
        summed = sum ∙ omega arith;
      },
      omega (arith, sum, traffic-append left new),
      refl,
      refl,
    )

InOrder-later : (old now : ℤ) (cs : List ByteCount) → old ≤ℤ now → InOrder old cs → InOrder now cs
InOrder-later old now [] h o = tt
InOrder-later old now (c ∷ cs) h (l, a, o) = (omega arith, a, InOrder-later old now cs h o)

pub IsItem-older : (old now : ℤ) (item : HostData) → old ≤ℤ now → IsItem old item → IsItem now item
IsItem-older old now item h v = record {
  ordered = InOrder-later old now item.byte_count h v.ordered;
  summed = v.summed;
}

remove_loop-none :
    (cs : List ByteCount) (before : ℤ)
    → ltb 0 (remove_loop cs before).1 ≡ false
    → (remove_loop cs before).0 ≡ cs
unfolding remove_loop
remove_loop-none [] before h = refl
remove_loop-none (c ∷ cs) before h = ground arith

-- What a clean-up makes of an item.
pub record Cleaned (before now : ℤ) (item new : HostData) : Type 0 where
  pub item_ok : IsItem now new
  pub counts : new.byte_count ≡ recent before item.byte_count
  pub same_a : new.host_a ≡ item.host_a
  pub same_b : new.host_b ≡ item.host_b

clean_item-Cleaned :
    (before now : ℤ) (item : HostData)
    → IsItem now item
    → Cleaned before now item (clean_item item before)
unfolding remove_byte_count_before update_bytes_sum
clean_item-Cleaned before now item v =
    let e : (remove_loop item.byte_count before).0 ≡ recent before item.byte_count =
      remove_loop-recent before now item.byte_count v.ordered in
    let o = recent-InOrder before now item.byte_count v.ordered in
    let sum = sum_loop-traffic 0 (recent before item.byte_count) (omega arith) in
    elim (Bool-cases (ltb 0 (remove_loop item.byte_count before).1)) [
      | inl some_gone ↦
          rw (some_gone, e)
            (record {
              item_ok = record { ordered = o; summed = sum ∙ omega arith };
              counts = refl;
              same_a = refl;
              same_b = refl;
            })
      | inr none_gone ↦
          let same = remove_loop-none item.byte_count before none_gone in
          rw none_gone (record {
            item_ok = record {
              ordered = rw e o;
              summed = v.summed ∙ ap (λ cs. traffic cs % two_64) (sym same);
            };
            counts = e;
            same_a = refl;
            same_b = refl;
          })
    ]

-- Item by item.
abbrev pub EachCleaned : ℤ → ℤ → List HostData → List HostData → Type 0
EachCleaned before now [] [] = Unit
EachCleaned before now (i ∷ is) (n ∷ ns) = Cleaned before now i n × EachCleaned before now is ns
EachCleaned before now _ _ = ⊥

-- A clean-up of a table in order drops from every item exactly the counts older than `before`, keeps
-- the hosts and the order of the items, and leaves every sum right.
pub cleanup_host_data-Cleaned :
    (before now : ℤ) (items : List HostData)
    → All (IsItem now) items
    → EachCleaned before now items (cleanup_host_data items before)
unfolding cleanup_host_data
cleanup_host_data-Cleaned before now [] v = tt
cleanup_host_data-Cleaned before now (i ∷ is) (v, vs) =
    (clean_item-Cleaned before now i v, cleanup_host_data-Cleaned before now is vs)

-- A clean-up keeps the number of items of any hosts.
pub count-cleanup_host_data :
    (p : HostData → Bool)
    → ((x y : HostData) → x.host_a ≡ y.host_a → x.host_b ≡ y.host_b → p x ≡ p y)
    → (before : ℤ) (items : List HostData)
    → count p (cleanup_host_data items before) ≡ count p items
unfolding cleanup_host_data remove_byte_count_before update_bytes_sum
count-cleanup_host_data p h before [] = refl
count-cleanup_host_data p h before (x ∷ items) =
    let same : p (clean_item x before) ≡ p x =
      elim (Bool-cases (ltb 0 (remove_loop x.byte_count before).1)) [
        | inl e ↦ rw e (h _ x refl refl)
        | inr e ↦ rw e (h _ x refl refl)
      ] in
    rw (same, count-cleanup_host_data p h before items) refl
