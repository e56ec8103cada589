-- ===== src/Hostwatch/Keys.antt =====
-- The table keeps one item for each pair of hosts, and every item in order.
use sntools.Base.{
  modify, ℕ, zero, suc, ◌≡◌, refl, Bool, none, List, [], ◌∷◌, arith, if◌then◌else◌, inl, inr,
  Option-cases, ℤ, ◌≤ℤ◌, Bytes, All, All-append, All-mono,
}
use sntools.Pairs
use sntools.Pairs.{find_index, find_index-none, count-modify, concat-AtMostOnce}
use sntools.Hostwatch.{
  HostData, is_pair, find_item, create_item, select_item, count_packet, update, update_bytes_sum,
  add_bytes, remove_byte_count_before,
}
use sntools.Hostwatch.Window.{traffic, IsItem, count_packet-IsItem, IsItem-older}

-- No two items have the same pair of hosts.
abbrev pub AtMostOnce : List HostData → Type 0
AtMostOnce = Pairs.AtMostOnce (λ item. item.host_a) (λ item. item.host_b)

All-modify :
    (now : ℤ) (f : HostData → HostData) (i : ℕ) (items : List HostData)
    → ((x : HostData) → IsItem now x → IsItem now (f x))
    → All (IsItem now) items
    → All (IsItem now) (modify i f items)
All-modify now f i [] k v = tt
All-modify now f zero (x ∷ items) k (p, v) = (k x p, v)
All-modify now f (suc i) (x ∷ items) k (p, v) = (p, All-modify now f i items k v)

-- The state of the table between two packets.
pub record IsTable (now : ℤ) (items : List HostData) : Type 0 where
  pub unique : AtMostOnce items
  pub items_ok : All (IsItem now) items

abbrev pub new_item : Bytes → Bytes → HostData
new_item a b = record { host_a = a; host_b = b; byte_count = []; byte_sum = 0 }

create_item-IsTable :
    (now : ℤ) (items : List HostData) (a b : Bytes)
    → find_index (is_pair a b) items ≡ none
    → IsTable now items
    → IsTable now (create_item items a b).0
unfolding create_item traffic
create_item-IsTable now items a b h t = record {
  unique =
      concat-AtMostOnce (λ item. item.host_a) (λ item. item.host_b) items (new_item a b)
        (find_index-none (is_pair a b) items h) t.unique;
  items_ok =
      All-append (IsItem now) items (new_item a b ∷ []) t.items_ok
        (record { ordered = tt; summed = refl }, tt);
}

select_item-IsTable :
    (d : Bool) (now : ℤ) (items : List HostData) (a b : Bytes)
    → IsTable now items
    → IsTable now (select_item d items a b).0
unfolding select_item find_item
select_item-IsTable d now items a b t = elim (Option-cases (find_index (is_pair a b) items)) [
  | inr (i, e) ↦ rw (e, select_item) t
  | inl e ↦ elim (Option-cases (if d then find_index (is_pair b a) items else none)) [
    | inr (i, k) ↦ rw (e, select_item, k) t
    | inl k ↦ rw (e, select_item, k) (create_item-IsTable now items a b e t)
  ]
]

-- A packet at a time that is not earlier than the last one keeps the table sound: one item for each
-- pair of hosts, the counts of each item in the order of their times, each sum the traffic of the
-- item's counts modulo 2 ^ 64. It holds with and without `-x`.
pub update-IsTable :
    (d : Bool) (timespan old now : ℤ) (a b : Bytes) (bytes : ℕ) (items : List HostData)
    → old ≤ℤ now
    → IsTable old items
    → IsTable now (update d timespan now a b bytes items)
unfolding update count_packet update_bytes_sum add_bytes remove_byte_count_before
update-IsTable d timespan old now a b bytes items h t =
    let s = select_item-IsTable d old items a b t in
    let r = select_item d items a b in
    record {
      unique = λ x y.
          rw (count-modify (is_pair x y) (count_packet timespan now bytes) r.1 r.0 (λ i. refl))
            (s.unique x y);
      items_ok =
          All-modify now (count_packet timespan now bytes) r.1 r.0
            (λ x v. (count_packet-IsItem timespan now now bytes x (omega arith) v).0)
            (All-mono (IsItem old) (IsItem now) r.0 (λ x. IsItem-older old now x h) s.items_ok);
    }
