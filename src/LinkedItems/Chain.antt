-- ===== src/LinkedItems/Chain.antt =====
-- What a chain of items stands for: the addresses and payloads in order, seen from a position
-- inside it. The items before the position are listed backwards, as the loops leave them behind.
use sntools.Base.{◌≡◌, refl, Bool, true, false, ◌||◌, some, List, [], ◌∷◌, arith, ◌==◌}
use sntools.Memory.{Ptr, null, item, Heap}

abbrev pub Cells : Type 0 → Type 0
Cells A = List (Ptr × A)

module _ {A : Type 0} where
  -- The address of the first cell, NULL if there is none.
  abbrev pub first : Cells A → Ptr
  first [] = null
  first ((p, _) ∷ _) = p

  abbrev pub has : Ptr → Cells A → Bool
  has a [] = false
  has a ((p, _) ∷ xs) = (a == p) || has a xs

  -- Addresses that are not NULL and differ from each other.
  abbrev pub Distinct : Cells A → Type 0
  Distinct [] = Unit
  Distinct ((p, _) ∷ xs) = ((p == null) ≡ false) × (has p xs ≡ false) × Distinct xs

  -- No address of `xs` is one of `ys`.
  abbrev pub Apart : Cells A → Cells A → Type 0
  Apart [] ys = Unit
  Apart ((p, _) ∷ xs) ys = (has p ys ≡ false) × Apart xs ys

  -- From `prev` on the links lead forwards through `xs` to NULL.
  abbrev pub Forward : Heap A → Ptr → Cells A → Type 0
  Forward h prev [] = Unit
  Forward h prev ((p, v) ∷ xs) = (h p ≡ some (item prev (first xs) v)) × Forward h p xs

  -- From `next` on the links lead backwards through `xs` to NULL.
  abbrev pub Backward : Heap A → Ptr → Cells A → Type 0
  Backward h next [] = Unit
  Backward h next ((p, v) ∷ xs) = (h p ≡ some (item (first xs) next v)) × Backward h p xs

  -- `g` differs from `h` at most at the addresses of `xs`.
  abbrev pub SameOutside : Cells A → Heap A → Heap A → Type 0
  SameOutside xs h g = (a : Ptr) → has a xs ≡ false → g a ≡ h a

-- The heap holds the chain `reverse before ++ after`, doubly linked and ended by NULL.
pub record Zip {A : Type 0} (h : Heap A) (before after : Cells A) : Type 0 where
  pub back : Backward h (first after) before
  pub forth : Forward h (first before) after
  pub before_ok : Distinct before
  pub after_ok : Distinct after
  pub apart : Apart before after

-- A whole chain, seen from its first item.
abbrev pub Chain : {A : Type 0} → Heap A → Cells A → Type 0
Chain h xs = Zip h [] xs

module _ {A : Type 0} where
  pub Apart-tail : (p : Ptr) (v : A) (xs ys : Cells A) → Apart xs ((p, v) ∷ ys) → Apart xs ys
  Apart-tail p v [] ys a = tt
  Apart-tail p v (x ∷ xs) ys (a, r) = (ground arith, Apart-tail p v xs ys r)

  pub not-has-Apart :
      (p : Ptr) (v : A) (xs ys : Cells A) → Apart xs ((p, v) ∷ ys) → has p xs ≡ false
  not-has-Apart p v [] ys a = refl
  not-has-Apart p v ((q, w) ∷ xs) ys (a, r) = ground (arith, not-has-Apart p v xs ys r)

  pub Apart-cons :
      (p : Ptr) (v : A) (xs ys : Cells A) → Apart xs ys → has p xs ≡ false → Apart xs ((p, v) ∷ ys)
  Apart-cons p v [] ys a h = tt
  Apart-cons p v ((q, w) ∷ xs) ys (a, r) h = (ground arith, Apart-cons p v xs ys r (ground arith))

  pub Forward-frame :
      {h g : Heap A} (prev : Ptr) (xs : Cells A)
      → Forward h prev xs
      → ((a : Ptr) → has a xs ≡ true → g a ≡ h a)
      → Forward g prev xs
  Forward-frame _ [] f same = tt
  Forward-frame _ ((p, v) ∷ xs) (e, f) same =
      (ground (arith, same p), Forward-frame p xs f λ a i. same a (ground arith))

  pub Backward-frame :
      {h g : Heap A} (next : Ptr) (xs : Cells A)
      → Backward h next xs
      → ((a : Ptr) → has a xs ≡ true → g a ≡ h a)
      → Backward g next xs
  Backward-frame _ [] f same = tt
  Backward-frame _ ((p, v) ∷ xs) (e, f) same =
      (ground (arith, same p), Backward-frame p xs f λ a i. same a (ground arith))

  -- One step of a walk.
  pub Zip-next :
      {h : Heap A} {before after : Cells A} (p : Ptr) (v : A)
      → Zip h before ((p, v) ∷ after)
      → Zip h ((p, v) ∷ before) after
  Zip-next {before} {after} p v z = record {
    back = (z.forth.0, z.back);
    forth = z.forth.1;
    before_ok = (z.after_ok.0, not-has-Apart p v before after z.apart, z.before_ok);
    after_ok = z.after_ok.2;
    apart = (z.after_ok.1, Apart-tail p v before after z.apart);
  }

  -- One step back.
  pub Zip-prev :
      {h : Heap A} {before after : Cells A} (p : Ptr) (v : A)
      → Zip h ((p, v) ∷ before) after
      → Zip h before ((p, v) ∷ after)
  Zip-prev {before} {after} p v z = record {
    back = z.back.1;
    forth = (z.back.0, z.forth);
    before_ok = z.before_ok.2;
    after_ok = (z.before_ok.0, z.apart.0, z.after_ok);
    apart = Apart-cons p v before after z.apart.1 z.before_ok.1;
  }
