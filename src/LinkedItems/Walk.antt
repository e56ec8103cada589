-- ===== src/LinkedItems/Walk.antt =====
-- `linked_item_count`, `linked_item_last` and `linked_item_free` on a chain.
use sntools.Base.{
  ℕ, zero, suc, ◌+◌, ◌<◌, ◌≡◌, refl, Option, none, some, [], ◌∷◌, arith, if◌then◌else◌, length, ◌∙◌,
  ap,
}
use sntools.Memory.{
  Ptr, null, item, Heap, Cmd, ok, write, Points, get_next-ok, free-ok, Returns, returns, mono,
}
use sntools.LinkedItems.{count_loop, count, last_loop, last, free_loop, free_all}
use sntools.LinkedItems.Chain.{Cells, first, has, Distinct, Forward, Chain, Forward-frame}

-- The address of the last cell, `p` if there is none.
abbrev pub last_address : {A : Type 0} → Ptr → Cells A → Ptr
last_address p [] = p
last_address p ((q, _) ∷ xs) = last_address q xs

-- The fuel that one round for each item and one for the end needs.
abbrev pub Enough : {A : Type 0} → ℕ → Cells A → Type 0
Enough k xs = length xs < k

-- The callback of `linked_item_free`, if any, returns and leaves the items alone.
abbrev pub LeavesItems : {A : Type 0} → Option (Ptr → Cmd A (Unit {0})) → Type 0
LeavesItems none = Unit
LeavesItems {A} (some f) = (a : Ptr) (h : Heap A) → f a h ≡ ok tt h

-- `g` is `h` less the items of `xs`.
abbrev pub Without : {A : Type 0} → Cells A → Heap A → Heap A → Type 0
Without xs h g = (a : Ptr) → g a ≡ (if has a xs then none else h a)

module _ {A : Type 0} where
  count_loop-ok :
      (k c : ℕ) {h : Heap A} (prev : Ptr) (xs : Cells A)
      → Forward h prev xs
      → Distinct xs
      → length xs < k
      → count_loop k (first xs) c h ≡ ok (c + length xs) h
  unfolding count_loop
  count_loop-ok zero c prev xs f d fuel = absurd (omega arith)
  count_loop-ok (suc k) c {h} prev [] f d fuel = ap (λ n. ok n h) (omega arith)
  count_loop-ok (suc k) c {h} prev ((p, v) ∷ xs) f d fuel =
      let e : Points h p (item prev (first xs) v) = record { live = d.0; holds = f.0 } in
      rw (d.0, get_next-ok e)
        (count_loop-ok k (c + 1) p xs f.1 d.2 (omega arith) ∙ ap (λ n. ok n h) (omega arith))

  last_loop-ok :
      (k : ℕ) {h : Heap A} (prev : Ptr) (xs : Cells A)
      → Forward h prev xs
      → Distinct xs
      → length xs < k
      → last_loop k (first xs) h ≡ ok (last_address null xs) h
  unfolding last_loop
  last_loop-ok zero prev xs f d fuel = absurd (omega arith)
  last_loop-ok (suc k) prev [] f d fuel = refl
  last_loop-ok (suc k) {h} prev ((p, v) ∷ []) f d fuel =
      let e : Points h p (item prev null v) = record { live = d.0; holds = f.0 } in
      rw (d.0, get_next-ok e)
  last_loop-ok (suc k) {h} prev ((p, v) ∷ (q, w) ∷ xs) f d fuel =
      let e : Points h p (item prev q v) = record { live = d.0; holds = f.0 } in
      rw (d.0, get_next-ok e, d.2.0) (last_loop-ok k p ((q, w) ∷ xs) f.1 d.2 (omega arith))

  free_loop-Without :
      (k : ℕ) (h : Heap A) (prev : Ptr) (xs : Cells A) (callback : Option (Ptr → Cmd A (Unit {0})))
      → Forward h prev xs
      → Distinct xs
      → length xs < k
      → LeavesItems callback
      → Returns (λ _. Without xs h) (free_loop k (first xs) callback h)
  unfolding free_loop write
  free_loop-Without zero h prev xs cb f d fuel l = absurd (omega arith)
  free_loop-Without (suc k) h prev [] cb f d fuel l = returns λ a. refl
  free_loop-Without (suc k) h prev ((p, v) ∷ xs) none f d fuel l =
      let e : Points h p (item prev (first xs) v) = record { live = d.0; holds = f.0 } in
      rw (d.0, get_next-ok e, free-ok e)
        (mono
          (free_loop-Without k (write h p none) p xs none
            (Forward-frame p xs f.1 (ground (arith, d.1))) d.2 (omega arith) tt)
          λ _ g gone a. ground (arith, gone a))
  free_loop-Without (suc k) h prev ((p, v) ∷ xs) (some cb) f d fuel l =
      let e : Points h p (item prev (first xs) v) = record { live = d.0; holds = f.0 } in
      rw (d.0, get_next-ok e, l p h, free-ok e)
        (mono
          (free_loop-Without k (write h p none) p xs (some cb)
            (Forward-frame p xs f.1 (ground (arith, d.1))) d.2 (omega arith) l)
          λ _ g gone a. ground (arith, gone a))

module _ {A : Type 0} {h : Heap A} (k : ℕ) (xs : Cells A) (chain : Chain h xs)
    (fuel : Enough k xs) where
  -- `linked_item_count` returns how many items the chain has, and writes nothing.
  pub count-length : count k (first xs) h ≡ ok (length xs) h
  unfolding count
  count-length =
      count_loop-ok k 0 null xs chain.forth chain.after_ok fuel ∙ ap (λ n. ok n h) (omega arith)

  -- `linked_item_last` returns the address of the last item, NULL for no item, and writes nothing.
  last-last_address : last k (first xs) h ≡ ok (last_address null xs) h
  unfolding last
  last-last_address = last_loop-ok k null xs chain.forth chain.after_ok fuel

  -- `linked_item_free` frees each item of the chain once and nothing else, and reads no item that it
  -- has freed.
  pub free_all-Without :
      (callback : Option (Ptr → Cmd A (Unit {0})))
      → LeavesItems callback
      → Returns (λ _. Without xs h) (free_all k (first xs) callback h)
  unfolding free_all
  free_all-Without callback l =
      free_loop-Without k h null xs callback chain.forth chain.after_ok fuel l
