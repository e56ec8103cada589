-- ===== src/LinkedItems/Bubble.antt =====
-- The abstract view of `linked_item_sort`: bubble sort on lists, for a test `gt a b` that the two
-- items a and b stand in the wrong order.
pub mod Map
use mathlib.Core.List.{Perm}
use mathlib.Core.List.Perm
use sntools.Base.{
  ℕ, zero, suc, ◌+◌, ◌*◌, ◌≤◌, ◌<◌, ◌≡◌, refl, Bool, true, false, List, [], ◌∷◌, arith, ◌==◌,
  if◌then◌else◌, inl, inr, Bool-cases, length, count, count-le-length,
}

-- A strict order given by a test: no two elements are each behind the other, and being in order
-- is transitive.
pub record IsStrictOrder {A : Type 0} (gt : A → A → Bool) : Type 0 where
  pub asym : (a b : A) → gt a b ≡ true → gt b a ≡ false
  pub trans : (a b c : A) → gt a b ≡ false → gt b c ≡ false → gt a c ≡ false

module _ {A : Type 0} (gt : A → A → Bool) where
  -- A pass that carries `x`.
  unfoldable pub bubble : A → List A → List A
  bubble x [] = x ∷ []
  bubble x (y ∷ ys) = if gt x y then y ∷ bubble x ys else x ∷ bubble y ys

  unfoldable pub swaps : A → List A → ℕ
  swaps x [] = 0
  swaps x (y ∷ ys) = if gt x y then suc (swaps x ys) else swaps y ys

  -- The pairs in the wrong order.
  unfoldable pub inversions : List A → ℕ
  inversions [] = 0
  inversions (x ∷ xs) = count (gt x) xs + inversions xs

  -- Passes until one makes no swap.
  unfoldable pub rounds : ℕ → List A → List A
  rounds k [] = []
  rounds zero (x ∷ xs) = x ∷ xs
  rounds (suc k) (x ∷ xs) =
      let rest = rounds k (bubble x xs) in if swaps x xs == 0 then bubble x xs else rest

  -- Enough passes for any list of this length.
  unfoldable pub sort_list : List A → List A
  unfolding rounds
  sort_list xs = rounds (suc (length xs * length xs)) xs

  -- Each element is in order with all behind it.
  abbrev pub IsSorted : List A → Type 0
  IsSorted [] = Unit
  IsSorted (x ∷ xs) = (count (gt x) xs ≡ 0) × IsSorted xs

  pub bubble-perm : (x : A) (xs : List A) → Perm (bubble x xs) (x ∷ xs)
  unfolding bubble
  bubble-perm x [] = Perm.refl (x ∷ [])
  bubble-perm x (y ∷ ys) = elim (Bool-cases (gt x y)) [
    | inl e ↦ rw e (Perm.trans (Perm.cons y (bubble-perm x ys)) (Perm.swap x y ys))
    | inr e ↦ rw e (Perm.cons x (bubble-perm y ys))
  ]

  pub count-bubble : (p : A → Bool) (x : A) (xs : List A) → count p (bubble x xs) ≡ count p (x ∷ xs)
  unfolding bubble
  count-bubble p x [] = refl
  count-bubble p x (y ∷ ys) = ground (arith, count-bubble p x ys, count-bubble p y ys)

  pub length-bubble : (x : A) (xs : List A) → length (bubble x xs) ≡ suc (length xs)
  unfolding bubble
  length-bubble x [] = refl
  length-bubble x (y ∷ ys) = ground (arith, length-bubble x ys, length-bubble y ys)

  pub inversions-bubble :
      IsStrictOrder gt
      → (x : A) (xs : List A) → inversions (bubble x xs) + swaps x xs ≡ inversions (x ∷ xs)
  unfolding bubble swaps inversions
  inversions-bubble o x [] = refl
  inversions-bubble o x (y ∷ ys) = ground (
    arith,
    inversions-bubble o x ys,
    inversions-bubble o y ys,
    count-bubble (gt x) y ys,
    count-bubble (gt y) x ys,
    o.asym x y,
  )

  pub inversions-le : (xs : List A) → inversions xs ≤ length xs * length xs
  unfolding inversions
  inversions-le [] = omega arith
  inversions-le (x ∷ xs) = omega (arith, inversions-le xs, count-le-length (gt x) xs)

  rounds-perm : (k : ℕ) (xs : List A) → Perm (rounds k xs) xs
  unfolding rounds
  rounds-perm k [] = Perm.refl []
  rounds-perm zero (x ∷ xs) = Perm.refl (x ∷ xs)
  rounds-perm (suc k) (x ∷ xs) = elim (Bool-cases (swaps x xs == 0)) [
    | inl e ↦ rw e (bubble-perm x xs)
    | inr e ↦ rw e (Perm.trans (rounds-perm k (bubble x xs)) (bubble-perm x xs))
  ]

  -- Sorting keeps every element, as often as it was there.
  pub sort_list-perm : (xs : List A) → Perm (sort_list xs) xs
  unfolding sort_list
  sort_list-perm xs = rounds-perm (suc (length xs * length xs)) xs

  count_trans :
      IsStrictOrder gt
      → (x y : A) (zs : List A) → gt x y ≡ false
      → count (gt y) zs ≡ 0
      → count (gt x) zs ≡ 0
  count_trans o x y [] h k = refl
  count_trans o x y (z ∷ zs) h k = ground (arith, count_trans o x y zs h, o.trans x y z h)

  swaps-IsSorted :
      IsStrictOrder gt
      → (x : A) (xs : List A) → swaps x xs ≡ 0
      → (bubble x xs ≡ x ∷ xs) × IsSorted (x ∷ xs)
  unfolding swaps bubble
  swaps-IsSorted o x [] e = (refl, (refl, tt))
  swaps-IsSorted o x (y ∷ ys) e = ground (arith, swaps-IsSorted o y ys, count_trans o x y ys)

  rounds-IsSorted :
      IsStrictOrder gt → (k : ℕ) (xs : List A) → inversions xs < k → IsSorted (rounds k xs)
  unfolding rounds
  rounds-IsSorted o k [] h = tt
  rounds-IsSorted o zero (x ∷ xs) h = absurd (omega arith)
  rounds-IsSorted o (suc k) (x ∷ xs) h = elim (Bool-cases (swaps x xs == 0)) [
    | inl e ↦ rw e (let (same, sorted) = swaps-IsSorted o x xs (ground arith) in rw same sorted)
    | inr e ↦ rw e (rounds-IsSorted o k (bubble x xs) (ground (arith, inversions-bubble o x xs)))
  ]

  -- The passes bring every list in order: the fuel of `sort_list` is enough.
  pub sort_list-IsSorted : IsStrictOrder gt → (xs : List A) → IsSorted (sort_list xs)
  unfolding sort_list
  sort_list-IsSorted o xs =
      rounds-IsSorted o (suc (length xs * length xs)) xs (omega (arith, inversions-le xs))

  rounds-enough :
      IsStrictOrder gt
      → (k j : ℕ) (xs : List A) → inversions xs < k
      → inversions xs < j
      → rounds k xs ≡ rounds j xs
  unfolding rounds
  rounds-enough o k j [] h i = refl
  rounds-enough o zero j (x ∷ xs) h i = absurd (omega arith)
  rounds-enough o (suc k) zero (x ∷ xs) h i = absurd (omega arith)
  rounds-enough o (suc k) (suc j) (x ∷ xs) h i = elim (Bool-cases (swaps x xs == 0)) [
    | inl e ↦ rw e
    | inr e ↦ rw e (
        rounds-enough o k j (bubble x xs) (ground (arith, inversions-bubble o x xs))
          (ground (arith, inversions-bubble o x xs)))
  ]

  -- More passes than the length squared change nothing.
  pub rounds-sort_list :
      IsStrictOrder gt
      → (k : ℕ) (xs : List A) → length xs * length xs < k
      → rounds k xs ≡ sort_list xs
  unfolding sort_list
  rounds-sort_list o k xs h =
      rounds-enough o k (suc (length xs * length xs)) xs (omega (arith, inversions-le xs))
        (omega (arith, inversions-le xs))
