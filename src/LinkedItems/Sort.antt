-- ===== src/LinkedItems/Sort.antt =====
-- `linked_item_sort` on a chain refines the bubble sort on lists.
use sntools.Base.{
  ℕ, zero, suc, ◌+◌, ◌*◌, ◌<◌, ◌≡◌, refl, sym, Bool, true, false, [], ◌∷◌, arith, ◌==◌,
  if◌then◌else◌, inl, inr, Bool-cases, length, rev_onto, ℤ, ◌∙◌,
}
use sntools.Memory.{
  Ptr, null, item, Heap, Points, load-ok, get_next-ok, Returns, returns, bind, mono,
}
use sntools.LinkedItems.{exceeds, sort_pass, sort_rounds, sort}
use sntools.LinkedItems.Chain.{Cells, first, has, Zip, Chain, Zip-next, Zip-prev}
use sntools.LinkedItems.Edit.{remove-Removed, append-Inserted}
use sntools.LinkedItems.Bubble.{
  IsStrictOrder, bubble, swaps, inversions, inversions-bubble, inversions-le, rounds, sort_list,
  rounds-sort_list, length-bubble,
}

-- The address of the first cell of `reverse before ++ [p]`.
abbrev top : {A : Type 0} → Cells A → Ptr → Ptr
top [] p = p
top ((q, _) ∷ before) p = top before q

module _ {A : Type 0} where
  first-rev_onto :
      (before : Cells A) (p : Ptr) (v : A) (after : Cells A)
      → first (rev_onto before ((p, v) ∷ after)) ≡ top before p
  first-rev_onto [] p v after = refl
  first-rev_onto ((q, w) ∷ before) p v after = first-rev_onto before q w ((p, v) ∷ after)

  has-top : (before : Cells A) (p : Ptr) (v : A) → has (top before p) ((p, v) ∷ before) ≡ true
  has-top [] p v = ground arith
  has-top ((q, w) ∷ before) p v = ground (arith, has-top before q w)

  -- The start after a swap of the cell `p` with the next one, `q`.
  top-swap :
      (before : Cells A) (p q : Ptr)
      → has p before ≡ false
      → (if p == top before p then q else top before p) ≡ top before q
  top-swap [] p q h = ground arith
  top-swap ((r, u) ∷ before) p q h = ground (arith, has-top before r u)

  rewind :
      {h : Heap A} (before after : Cells A) → Zip h before after → Chain h (rev_onto before after)
  rewind [] after z = z
  rewind ((p, v) ∷ before) after z = rewind before ((p, v) ∷ after) (Zip-prev p v z)

-- `g` holds the chain `ys` from `s` on, and agrees with `h` off the addresses of `xs`.
pub record Sorts {A : Type 0} (h : Heap A) (xs ys : Cells A) (s : Ptr) (g : Heap A) : Type 0 where
  pub chain : Chain g ys
  pub start : s ≡ first ys
  pub same : (a : Ptr) → has a xs ≡ false → g a ≡ h a

-- The outcome of a pass that has `before` behind it and carries the cell `(p, v)`.
record Pass {A : Type 0} (h : Heap A) (before : Cells A) (p : Ptr) (v : A) (after ys : Cells A)
    (m : ℕ) (r : Ptr × ℕ) (g : Heap A) : Type 0 where
  chain : Chain g (rev_onto before ys)
  start : r.0 ≡ first (rev_onto before ys)
  changed : r.1 ≡ m
  same : (a : Ptr) → has a before ≡ false → (a == p) ≡ false → has a after ≡ false → g a ≡ h a

module _ {A : Type 0} (cf : A → A → ℤ) where
  -- The compare function on cells.
  abbrev pub above : Ptr × A → Ptr × A → Bool
  above x y = exceeds cf x.1 y.1

  module _ (o : IsStrictOrder above) where
    sort_pass-keep :
        (k : ℕ) (start p : Ptr) (v : A) (before : Cells A) (q : Ptr) (w : A) (after : Cells A)
        (n : ℕ) {h : Heap A}
        → Zip h ((p, v) ∷ before) ((q, w) ∷ after)
        → exceeds cf v w ≡ false
        → sort_pass cf (suc k) start p q n h ≡ sort_pass cf k start q (first after) n h
    unfolding sort_pass
    sort_pass-keep k start p v before q w after n {h} z e =
        let ep : Points h p (item (first before) q v) = record {
          live = z.before_ok.0;
          holds = z.back.0;
        } in
        let eq : Points h q (item p (first after) w) = record {
          live = z.after_ok.0;
          holds = z.forth.0;
        } in
        rw (z.after_ok.0, z.before_ok.0, load-ok ep, load-ok eq, e, get_next-ok eq)

    -- A round that swaps goes on from the same item, which has moved back by one place.
    sort_pass-swap :
        (k : ℕ) (start p : Ptr) (v : A) (before : Cells A) (q : Ptr) (w : A) (after : Cells A)
        (n : ℕ) {h : Heap A} {Q : Ptr × ℕ → Heap A → Type 0}
        → Zip h ((p, v) ∷ before) ((q, w) ∷ after)
        → exceeds cf v w ≡ true
        → start ≡ top before p
        → ((g : Heap A)
            → Zip g ((q, w) ∷ before) ((p, v) ∷ after)
            → ((a : Ptr)
                → has a before ≡ false
                → (a == p) ≡ false
                → has a ((q, w) ∷ after) ≡ false
                → g a ≡ h a)
            → Returns Q (sort_pass cf k (top before q) q p (n + 1) g))
        → Returns Q (sort_pass cf (suc k) start p q n h)
    unfolding sort_pass
    sort_pass-swap k start p v before q w after n {h} z e s next =
        let ep : Points h p (item (first before) q v) = record {
          live = z.before_ok.0;
          holds = z.back.0;
        } in
        let eq : Points h q (item p (first after) w) = record {
          live = z.after_ok.0;
          holds = z.forth.0;
        } in
        rw (z.after_ok.0, z.before_ok.0, load-ok ep, load-ok eq, e)
          (bind (remove-Removed p v before ((q, w) ∷ after) (Zip-prev p v z)) λ _ g1 r.
            let e1 : Points g1 p (item (first before) q v) = record {
              live = r.live;
              holds = r.unlinked ∙ z.back.0;
            } in
            bind
              (append-Inserted p v (first before) q q w before after e1
                (ground (arith, r.not_before, r.not_after)) (ground (arith, r.not_after))
                (Zip-next q w r.zip))
              λ _ g2 i.
                let e2 : Points g2 q (item (first before) p w) = record {
                  live = z.after_ok.0;
                  holds = i.zip.back.0;
                } in
                rw (get_next-ok e2, s, top-swap before p q r.not_before)
                  (next g2 i.zip λ a b c d. ground (arith, i.same a, r.same a)))

    sort_pass-Pass :
        (k : ℕ) (start p : Ptr) (v : A) (before after : Cells A) (n : ℕ) {h : Heap A}
        → Zip h ((p, v) ∷ before) after
        → start ≡ top before p
        → 2 * length after < k
        → Returns
            (Pass h before p v after (bubble above (p, v) after) (n + swaps above (p, v) after))
            (sort_pass cf k start p (first after) n h)
    unfolding sort_pass bubble swaps
    sort_pass-Pass zero start p v before after n z s fuel = absurd (omega arith)
    sort_pass-Pass (suc k) start p v before [] n z s fuel = returns (record {
      chain = rewind before ((p, v) ∷ []) (Zip-prev p v z);
      start = s ∙ sym (first-rev_onto before p v []);
      changed = omega arith;
      same = λ a _ _ _. refl;
    })
    sort_pass-Pass (suc zero) start p v before ((q, w) ∷ after) n z s fuel = absurd (omega arith)
    sort_pass-Pass (suc (suc k)) start p v before ((q, w) ∷ after) n {h} z s fuel =
        elim (Bool-cases (exceeds cf v w)) [
          | inl e ↦ sort_pass-swap (suc k) start p v before q w after n z e s λ g z' same.
              rw
                (sort_pass-keep k (top before q) q w before p v after (n + 1) z'
                  (o.asym (p, v) (q, w) e))
                (rw e (
                  mono
                    (sort_pass-Pass k (top before q) p v ((q, w) ∷ before) after (n + 1)
                      (Zip-next p v z') refl (omega arith))
                    λ r g' c. record {
                      chain = c.chain;
                      start = c.start;
                      changed = omega (arith, c.changed);
                      same = λ a b d f. ground (arith, c.same a, same a);
                    }))
          | inr e ↦ rw (sort_pass-keep (suc k) start p v before q w after n z e) (
              rw e (
                mono
                  (sort_pass-Pass (suc k) start q w ((p, v) ∷ before) after n (Zip-next q w z) s
                    (omega arith))
                  λ r g c. record {
                    chain = c.chain;
                    start = c.start;
                    changed = c.changed;
                    same = λ a b d f. c.same a (ground arith) (ground arith) (ground arith);
                  }))
        ]

    sort_pass-first :
        (k : ℕ) (p : Ptr) (v : A) (xs : Cells A) {h : Heap A}
        → Chain h ((p, v) ∷ xs)
        → 2 * length xs + 1 < k
        → Returns
            (Pass h [] p v xs (bubble above (p, v) xs) (swaps above (p, v) xs))
            (sort_pass cf k p null p 0 h)
    unfolding sort_pass
    sort_pass-first zero p v xs z fuel = absurd (omega arith)
    sort_pass-first (suc k) p v xs {h} z fuel =
        let e : Points h p (item null (first xs) v) = record {
          live = z.after_ok.0;
          holds = z.forth.0;
        } in
        rw (z.after_ok.0, get_next-ok e)
          (mono (sort_pass-Pass k p p v [] xs 0 (Zip-next p v z) refl (omega arith)) λ r g c.
            record {
              chain = c.chain;
              start = c.start;
              changed = omega (arith, c.changed);
              same = c.same;
            })

    has-bubble : (a : Ptr) (x : Ptr × A) (xs : Cells A) → has a (bubble above x xs) ≡ has a (x ∷ xs)
    unfolding bubble
    has-bubble a x [] = refl
    has-bubble a (p, v) ((q, w) ∷ ys) =
        ground (arith, has-bubble a (p, v) ys, has-bubble a (q, w) ys)

    sort_rounds-Sorts :
        (k inner start : ℕ) (xs : Cells A) {h : Heap A}
        → Chain h xs
        → start ≡ first xs
        → 0 < length xs
        → 2 * length xs < inner
        → inversions above xs < k
        → Returns (Sorts h xs (rounds above k xs)) (sort_rounds cf k inner start h)
    unfolding sort_rounds rounds
    sort_rounds-Sorts k inner start [] z s some_item fuel inv = absurd (omega arith)
    sort_rounds-Sorts zero inner start (x ∷ xs) z s some_item fuel inv = absurd (omega arith)
    sort_rounds-Sorts (suc k) inner start ((p, v) ∷ xs) {h} z s some_item fuel inv = rw s (
        bind (sort_pass-first inner p v xs z (omega arith)) λ r g c.
          elim (Bool-cases (swaps above (p, v) xs == 0)) [
            | inl e ↦
                rw (c.changed, e)
                  (returns (record {
                    chain = c.chain;
                    start = c.start;
                    same = λ a out. c.same a refl (ground arith) (ground arith);
                  }))
            | inr e ↦
                rw (c.changed, e)
                  (mono
                    (sort_rounds-Sorts k inner r.0 (bubble above (p, v) xs) c.chain c.start
                      (omega (arith, length-bubble above (p, v) xs))
                      (omega (arith, length-bubble above (p, v) xs))
                      (ground (arith, inversions-bubble above o (p, v) xs)))
                    λ t g' d. record {
                      chain = d.chain;
                      start = d.start;
                      same = λ a out. ground (arith, d.same a, c.same a, has-bubble a (p, v) xs);
                    })
          ])

    -- Given a compare function that orders the payloads, `linked_item_sort` ends within
    -- (number of items)² + 1 passes of at most twice the number of items + 1 rounds each. It leaves
    -- a well-linked chain of the same items, in the order of the list function `sort_list`,
    -- returns its first item, and changes nothing outside.
    pub sort-sort_list :
        (k inner : ℕ) (xs : Cells A) {h : Heap A}
        → Chain h xs
        → length xs * length xs < k
        → 2 * length xs < inner
        → Returns (Sorts h xs (sort_list above xs)) (sort cf k inner (first xs) h)
    unfolding sort sort_list rounds
    sort-sort_list k inner [] z many fuel =
        returns (record { chain = z; start = refl; same = λ a _. refl })
    sort-sort_list k inner (x ∷ xs) z many fuel =
        rw (z.after_ok.0, ← rounds-sort_list above o k (x ∷ xs) many)
          (sort_rounds-Sorts k inner x.0 (x ∷ xs) z refl (omega arith) fuel
            (omega (arith, inversions-le above (x ∷ xs))))
