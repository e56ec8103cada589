-- ===== src/Hostwatch/Only.antt =====
-- Two hosts have at most one item, and it holds all that the table knows of them.
use sntools.Base.{
  ℕ, zero, suc, ◌≤◌, ◌≡◌, refl, sym, ap, ◌∙◌, Bool, true, false, some, none, if◌then◌else◌,
  Option-cases, count-append, ◌++◌, length, List, [], ◌∷◌, inl, inr, arith, Bool-cases, get_elem?,
  count, ℤ, ◌-ℤ◌, Bytes,
}
use sntools.Pairs.{find_index, find_index-none, count-modify, connects, connects→eq}
use sntools.Hostwatch.{
  HostData, is_pair, find_item, create_item, select_item, count_packet, update, update_bytes_sum,
  add_bytes, remove_byte_count_before,
}
use sntools.LinkedItems.{exceeds}
use sntools.LinkedItems.Bubble.Map.{count-sort_list}
use sntools.Hostwatch.{compare, cleanup_host_data}
use sntools.Hostwatch.Packet.{Config}
use sntools.Hostwatch.Output.{sorted_data}
use sntools.Hostwatch.Keys.{new_item}
use sntools.Hostwatch.Window.{count-cleanup_host_data, recent, traffic}
use sntools.Hostwatch.Seen.{is_hosts, seen}

count-get_elem? :
    (p : HostData → Bool) (items : List HostData) (i : ℕ) (x : HostData)
    → p x ≡ true
    → get_elem? items i ≡ some x
    → 1 ≤ count p items
count-get_elem? p [] i x h e = cc e
count-get_elem? p (y ∷ items) zero x h e = let same : y ≡ x = cc e in rw (same, h) (omega arith)
count-get_elem? p (y ∷ items) (suc i) x h e = omega (arith, count-get_elem? p items i x h e)

seen-none :
    (both : Bool) (before : ℤ) (a b : Bytes) (items : List HostData)
    → count (is_hosts both a b) items ≡ 0
    → seen both before a b items ≡ 0
seen-none both before a b [] h = refl
seen-none both before a b (x ∷ items) h = elim (Bool-cases (is_hosts both a b x)) [
  | inl e ↦ let no_room : ⊥ = omega (arith, rw e at h) in elim no_room [ ]
  | inr e ↦ rw e (omega (arith, seen-none both before a b items (omega (arith, rw e at h))))
]

-- The only item of a pair holds all that the table knows of it.
pub seen-get_elem? :
    (both : Bool) (before : ℤ) (a b : Bytes) (items : List HostData) (i : ℕ) (x : HostData)
    → is_hosts both a b x ≡ true
    → count (is_hosts both a b) items ≤ 1
    → get_elem? items i ≡ some x
    → seen both before a b items ≡ traffic (recent before x.byte_count)
seen-get_elem? both before a b [] i x h once e = cc e
seen-get_elem? both before a b (y ∷ items) zero x h once e =
    let same : y ≡ x = cc e in
    let rest : count (is_hosts both a b) items ≡ 0 = omega (arith, rw (same, h) at once) in
    rw (same, h, seen-none both before a b items rest) (omega arith)
seen-get_elem? both before a b (y ∷ items) (suc i) x h once e =
    let present = count-get_elem? (is_hosts both a b) items i x h e in
    elim (Bool-cases (is_hosts both a b y)) [
      | inl f ↦ let no_room : ⊥ = omega (arith, present, rw f at once) in elim no_room [ ]
      | inr f ↦ rw f (
          omega (arith, seen-get_elem? both before a b items i x h (omega (arith, rw f at once)) e))
    ]

-- No two items are for the same hosts; with `-x` not in opposite directions either.
abbrev pub HostsOnce : Bool → List HostData → Type 0
HostsOnce both items = (a b : Bytes) → count (is_hosts both a b) items ≤ 1

-- Hosts that are not found have no item.
count-not_found :
    (both : Bool) (a b : Bytes) (items : List HostData)
    → count (is_pair a b) items ≡ 0
    → (if both then count (is_pair b a) items else 0) ≡ 0
    → count (is_hosts both a b) items ≡ 0
count-not_found both a b [] h k = refl
count-not_found both a b (x ∷ items) h k = ground (arith, count-not_found both a b items)

count-turned :
    (a b : Bytes) (items : List HostData)
    → count (is_hosts true b a) items ≡ count (is_hosts true a b) items
count-turned a b [] = refl
count-turned a b (x ∷ items) = ground (arith, count-turned a b items)

count-new_item :
    (both : Bool) (from to a b : Bytes) (items : List HostData)
    → count (is_hosts both from to) items ≡ 0
    → count (is_hosts both a b) items ≤ 1
    → count (is_hosts both a b) (items ++ new_item from to ∷ []) ≤ 1
count-new_item both from to a b items none_yet once =
    let more = count-append (is_hosts both a b) items (new_item from to ∷ []) in
    elim (Bool-cases (connects both a b from to)) [
      | inr e ↦ rw (more, e) (omega (arith, once))
      | inl e ↦ elim (connects→eq both a b from to e) [
        | inl (s, t) ↦
            let zero_yet : count (is_hosts both a b) items ≡ 0 = rw (sym s, sym t) none_yet in
            rw (more, e) (omega (arith, zero_yet))
        | inr (d, s, t) ↦
            let zero_yet : count (is_hosts both a b) items ≡ 0 =
              ap (λ u. count (is_hosts u a b) items) d
              ∙ sym (count-turned a b items)
              ∙ ap (λ u. count (is_hosts u b a) items) (sym d)
              ∙ ap (λ x. count (is_hosts both x a) items) (sym s)
              ∙ ap (λ x. count (is_hosts both from x) items) (sym t)
              ∙ none_yet in
            rw (more, e) (omega (arith, zero_yet))
      ]
    ]

create_item-HostsOnce :
    (both : Bool) (from to : Bytes) (items : List HostData)
    → find_index (is_pair from to) items ≡ none
    → (if both then find_index (is_pair to from) items else none) ≡ none
    → HostsOnce both items
    → HostsOnce both (items ++ new_item from to ∷ [])
create_item-HostsOnce both from to items e k once a b =
    count-new_item both from to a b items
      (count-not_found both from to items (find_index-none (is_pair from to) items e)
        (turned both k))
      (once a b)
  where
    turned :
        (dir : Bool)
        → (if dir then find_index (is_pair to from) items else none) ≡ none
        → (if dir then count (is_pair to from) items else 0) ≡ 0
    turned false h = refl
    turned true h = find_index-none (is_pair to from) items h

-- A packet makes no second item for its hosts.
pub update-HostsOnce :
    (both : Bool) (timespan now : ℤ) (from to : Bytes) (bytes : ℕ) (items : List HostData)
    → HostsOnce both items
    → HostsOnce both (update both timespan now from to bytes items)
unfolding update select_item find_item create_item count_packet update_bytes_sum add_bytes
    remove_byte_count_before
update-HostsOnce both timespan now from to bytes items once a b =
    let counted = λ (i : ℕ) (xs : List HostData).
      count-modify (is_hosts both a b) (count_packet timespan now bytes) i xs (λ x. refl) in
    elim (Option-cases (find_index (is_pair from to) items)) [
      | inr (i, e) ↦ rw (e, select_item, counted i items) (once a b)
      | inl e ↦ elim (Option-cases (if both then find_index (is_pair to from) items else none)) [
        | inr (i, k) ↦ rw (e, select_item, k, counted i items) (once a b)
        | inl k ↦
            rw (e, select_item, k, counted (length items) (items ++ new_item from to ∷ []))
              (create_item-HostsOnce both from to items e k once a b)
      ]
    ]

pub sorted_data-HostsOnce :
    (c : Config) (now : ℤ) (both : Bool) (items : List HostData)
    → HostsOnce both items
    → HostsOnce both (sorted_data c now items)
sorted_data-HostsOnce c now both items once a b =
    let before = now -ℤ c.timespan_seconds in
    rw
      (
        count-sort_list (exceeds compare) (is_hosts both a b) (cleanup_host_data items before),
        count-cleanup_host_data (is_hosts both a b) (λ x y h k. rw (h, k) refl) before items,
      )
      (once a b)
