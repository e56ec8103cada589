-- ===== src/Hostwatch/Seen.antt =====
-- What the table knows of the traffic of a pair since a time, and what each step does to that.
use mathlib.Core.List.{Perm, foldr}
use mathlib.Core.List.Perm
use native.Mathlib.Nat.{ℕ_set}
use sntools.Base.{
  modify, ℕ, suc, ◌+◌, ◌≡◌, refl, ap, ◌∙◌, sym, Bool, true, false, some, List, [], ◌∷◌, ◌++◌, arith,
  if◌then◌else◌, inl, inr, Bool-cases, Option-cases, length, ℤ, ◌-ℤ◌, ◌≤ℤ◌, ltb_ℤ, Bytes, All,
}
use sntools.Pairs.{find_index, is_pair→eq, connects, connects_turned}
use sntools.Hostwatch.{
  ByteCount, HostData, is_pair, find_item, create_item, select_item, count_packet, update,
  update_bytes_sum, add_bytes, remove_loop, remove_byte_count_before,
}
use sntools.Hostwatch.Window.{recent, traffic, IsItem, EachCleaned, remove_loop-recent}
use sntools.Hostwatch.Keys.{new_item}

-- The item is for the two hosts, in either direction if `both`.
abbrev pub is_hosts : (both : Bool) → Bytes → Bytes → HostData → Bool
is_hosts both a b item = connects both a b item.host_a item.host_b

-- The bytes that an item holds for two hosts, counted from `before` on.
abbrev pub item_seen : Bool → ℤ → Bytes → Bytes → HostData → ℕ
item_seen both before a b item =
    if is_hosts both a b item then traffic (recent before item.byte_count) else 0

abbrev pub seen : Bool → ℤ → Bytes → Bytes → List HostData → ℕ
seen both before a b [] = 0
seen both before a b (item ∷ items) = item_seen both before a b item + seen both before a b items

-- The bytes of a packet, for two hosts.
abbrev pub packet_seen : Bool → ℤ → Bytes → Bytes → (now : ℤ) → (from to : Bytes) → ℕ → ℕ
packet_seen both before a b now from to bytes =
    if connects both a b from to then (if ltb_ℤ now before then 0 else bytes) else 0

pub recent-recent :
    (old before : ℤ) (cs : List ByteCount)
    → old ≤ℤ before
    → recent before (recent old cs) ≡ recent before cs
unfolding recent
recent-recent old before [] h = refl
recent-recent old before (c ∷ cs) h = ground (arith, recent-recent old before cs h)

traffic-recent_append :
    (before now : ℤ) (bytes : ℕ) (cs : List ByteCount)
    → traffic (recent before (cs ++ record { ts = now; bytes = bytes } ∷ []))
      ≡ traffic (recent before cs) + (if ltb_ℤ now before then 0 else bytes)
unfolding recent traffic
traffic-recent_append before now bytes [] = ground arith
traffic-recent_append before now bytes (c ∷ cs) =
    ground (arith, traffic-recent_append before now bytes cs)

seen-append :
    (both : Bool) (before : ℤ) (a b : Bytes) (xs ys : List HostData)
    → seen both before a b (xs ++ ys) ≡ seen both before a b xs + seen both before a b ys
seen-append both before a b [] ys = omega arith
seen-append both before a b (x ∷ xs) ys = omega (arith, seen-append both before a b xs ys)

seen-foldr :
    (both : Bool) (before : ℤ) (a b : Bytes) (xs : List HostData)
    → seen both before a b xs
      ≡ foldr (λ (item : HostData) (n : ℕ). item_seen both before a b item + n) 0 xs
seen-foldr both before a b [] = refl
seen-foldr both before a b (x ∷ xs) =
    ap (λ n. item_seen both before a b x + n) (seen-foldr both before a b xs)

-- The order of the items does not matter.
pub seen-Perm :
    (both : Bool) (before : ℤ) (a b : Bytes) {xs ys : List HostData}
    → Perm xs ys
    → seen both before a b xs ≡ seen both before a b ys
seen-Perm both before a b {xs} {ys} p =
    seen-foldr both before a b xs
    ∙ Perm.foldr-eq ℕ_set (λ (item : HostData) (n : ℕ). item_seen both before a b item + n)
        (λ x y n. omega arith) p 0
    ∙ sym (seen-foldr both before a b ys)

pub seen-EachCleaned :
    (cut now : ℤ) (both : Bool) (before : ℤ) (a b : Bytes) (items cleaned : List HostData)
    → cut ≤ℤ before
    → EachCleaned cut now items cleaned
    → seen both before a b cleaned ≡ seen both before a b items
seen-EachCleaned cut now both before a b [] [] h c = refl
seen-EachCleaned cut now both before a b [] (y ∷ ys) h c = elim c [ ]
seen-EachCleaned cut now both before a b (x ∷ xs) [] h c = elim c [ ]
seen-EachCleaned cut now both before a b (x ∷ xs) (y ∷ ys) h (c, cs) =
    let counts : recent before y.byte_count ≡ recent before x.byte_count =
      ap (recent before) c.counts ∙ recent-recent cut before x.byte_count h in
    rw (c.same_a, c.same_b, counts, seen-EachCleaned cut now both before a b xs ys h cs) refl

module _ (timespan old now before : ℤ) (bytes : ℕ) (h : (now -ℤ timespan) ≤ℤ before) where
  -- The packet of an item, for a pair.
  count_packet-traffic :
      (item : HostData)
      → IsItem old item
      → traffic (recent before (count_packet timespan now bytes item).byte_count)
        ≡ traffic (recent before item.byte_count) + (if ltb_ℤ now before then 0 else bytes)
  unfolding count_packet update_bytes_sum add_bytes remove_byte_count_before
  count_packet-traffic item v =
      let cut = now -ℤ timespan in
      let left : (remove_loop item.byte_count cut).0 ≡ recent cut item.byte_count =
        remove_loop-recent cut old item.byte_count v.ordered in
      rw left (
        traffic-recent_append before now bytes (recent cut item.byte_count)
        ∙ ap (λ cs. traffic cs + (if ltb_ℤ now before then 0 else bytes))
            (recent-recent cut before item.byte_count h))

  module _ (both : Bool) (from to a b : Bytes) where
    -- An item that is for the hosts of the packet, for any two hosts.
    item_seen-count_packet :
        (item : HostData)
        → is_hosts both a b item ≡ connects both a b from to
        → IsItem old item
        → item_seen both before a b (count_packet timespan now bytes item)
          ≡ item_seen both before a b item + packet_seen both before a b now from to bytes
    unfolding count_packet update_bytes_sum add_bytes remove_byte_count_before
    item_seen-count_packet item same v =
        let more = count_packet-traffic item v in
        rw (sym same)
          (elim (Bool-cases (is_hosts both a b item)) [ inl e ↦ rw e more | inr e ↦ rw e refl ])

    -- The packet at the first item that passes a test for its hosts.
    seen-modify :
        (p : HostData → Bool) (items : List HostData) (i : ℕ)
        → ((x : HostData) → p x ≡ true → is_hosts both a b x ≡ connects both a b from to)
        → find_index p items ≡ some i
        → All (IsItem old) items
        → seen both before a b (modify i (count_packet timespan now bytes) items)
          ≡ seen both before a b items + packet_seen both before a b now from to bytes
    unfolding find_index
    seen-modify p [] i s e vs = cc e
    seen-modify p (x ∷ items) i s e (v, vs) = elim (Bool-cases (p x)) [
      | inl f ↦
          let here : 0 ≡ i = cc (rw (f, find_index) at e) in
          rw (sym here) (omega (arith, item_seen-count_packet x (s x f) v))
      | inr f ↦ elim (Option-cases (find_index p items)) [
        | inl k ↦ cc (rw (f, find_index, k) at e)
        | inr (j, k) ↦
            let later : suc j ≡ i = cc (rw (f, find_index, k) at e) in
            rw (sym later) (omega (arith, seen-modify p items j s k vs))
      ]
    ]

    -- The packet at the new last item.
    seen-create :
        (items : List HostData)
        → seen both before a b (
            modify
              (length items)
              (count_packet timespan now bytes)
              (items ++ new_item from to ∷ []))
          ≡ seen both before a b items + packet_seen both before a b now from to bytes
    unfolding recent traffic
    seen-create [] =
        let new_ok : IsItem old (new_item from to) = record { ordered = tt; summed = refl } in
        let item = item_seen-count_packet (new_item from to) refl new_ok in
        let nothing : item_seen both before a b (new_item from to) ≡ 0 = ground arith in
        omega (arith, item, nothing)
    seen-create (x ∷ items) = omega (arith, seen-create items)

    is_pair-connects :
        (x : HostData) → is_pair from to x ≡ true → is_hosts both a b x ≡ connects both a b from to
    is_pair-connects x h =
        let (s, t) = is_pair→eq (λ item. item.host_a) (λ item. item.host_b) from to x h in
        rw (s, t) refl

  -- A packet adds its bytes to what the table knows of its hosts, and nothing to the rest.
  pub seen-update :
      (both : Bool) (from to a b : Bytes) (items : List HostData)
      → All (IsItem old) items
      → seen both before a b (update both timespan now from to bytes items)
        ≡ seen both before a b items + packet_seen both before a b now from to bytes
  unfolding update select_item find_item create_item
  seen-update false from to a b items vs =
      elim (Option-cases (find_index (is_pair from to) items)) [
        | inr (i, e) ↦
            rw (e, select_item)
              (seen-modify false from to a b (is_pair from to) items i
                (is_pair-connects false from to a b) e vs)
        | inl e ↦ rw (e, select_item) (seen-create false from to a b items)
      ]
  seen-update true from to a b items vs = elim (Option-cases (find_index (is_pair from to) items)) [
    | inr (i, e) ↦
        rw (e, select_item)
          (seen-modify true from to a b (is_pair from to) items i
            (is_pair-connects true from to a b) e vs)
    | inl e ↦ elim (Option-cases (find_index (is_pair to from) items)) [
      | inr (i, k) ↦
          let turned : (x : HostData)
              → is_pair to from x ≡ true
              → is_hosts true a b x ≡ connects true a b from to =
            λ x f. is_pair-connects true to from a b x f ∙ connects_turned a b from to in
          rw (e, select_item, k)
            (seen-modify true from to a b (is_pair to from) items i turned k vs)
      | inl k ↦ rw (e, select_item, k) (seen-create true from to a b items)
    ]
  ]
