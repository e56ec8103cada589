-- ===== src/LinkedItems/Bubble/Map.antt =====
-- Sorting commutes with a projection that the test goes through: from cells to their payloads.
use sntools.Base.{
  ℕ, zero, suc, ◌*◌, ◌≡◌, refl, ap, ◌∙◌, Bool, List, [], ◌∷◌, map, arith, ◌==◌, inl, inr,
  Bool-cases, length, All, count,
}
use sntools.LinkedItems.Bubble.{IsStrictOrder, bubble, swaps, rounds, sort_list, count-bubble}

module _ {A B : Type 0} (f : A → B) (gt : B → B → Bool) where
  abbrev pub on : A → A → Bool
  on x y = gt (f x) (f y)

  pub IsStrictOrder-on : IsStrictOrder gt → IsStrictOrder on
  IsStrictOrder-on o = record {
    asym = λ a b. o.asym (f a) (f b);
    trans = λ a b c. o.trans (f a) (f b) (f c);
  }

  map-bubble : (x : A) (xs : List A) → map f (bubble on x xs) ≡ bubble gt (f x) (map f xs)
  unfolding bubble
  map-bubble x [] = refl
  map-bubble x (y ∷ ys) = elim (Bool-cases (gt (f x) (f y))) [
    | inl e ↦ rw e (rw (map-bubble x ys))
    | inr e ↦ rw e (rw (map-bubble y ys))
  ]

  swaps-map : (x : A) (xs : List A) → swaps on x xs ≡ swaps gt (f x) (map f xs)
  unfolding swaps
  swaps-map x [] = refl
  swaps-map x (y ∷ ys) = ground (arith, swaps-map x ys, swaps-map y ys)

  length-map : (xs : List A) → length (map f xs) ≡ length xs
  length-map [] = refl
  length-map (x ∷ xs) = ap suc (length-map xs)

  map-rounds : (k : ℕ) (xs : List A) → map f (rounds on k xs) ≡ rounds gt k (map f xs)
  unfolding rounds
  map-rounds k [] = refl
  map-rounds zero (x ∷ xs) = refl
  map-rounds (suc k) (x ∷ xs) = elim (Bool-cases (swaps gt (f x) (map f xs) == 0)) [
    | inl e ↦ rw (swaps-map x xs, e) (map-bubble x xs)
    | inr e ↦
        rw (swaps-map x xs, e) (map-rounds k (bubble on x xs) ∙ ap (rounds gt k) (map-bubble x xs))
  ]

  pub map-sort_list : (xs : List A) → map f (sort_list on xs) ≡ sort_list gt (map f xs)
  unfolding sort_list
  map-sort_list xs = rw (length-map xs) (map-rounds (suc (length xs * length xs)) xs)

module _ {A : Type 0} (gt : A → A → Bool) (P : A → Type 0) where
  All-bubble : (x : A) (xs : List A) → P x → All P xs → All P (bubble gt x xs)
  unfolding bubble
  All-bubble x [] h a = (h, tt)
  All-bubble x (y ∷ ys) h (k, a) = elim (Bool-cases (gt x y)) [
    | inl e ↦ rw e (k, All-bubble x ys h a)
    | inr e ↦ rw e (h, All-bubble y ys k a)
  ]

  All-rounds : (k : ℕ) (xs : List A) → All P xs → All P (rounds gt k xs)
  unfolding rounds
  All-rounds k [] a = tt
  All-rounds zero (x ∷ xs) a = a
  All-rounds (suc k) (x ∷ xs) (h, a) = elim (Bool-cases (swaps gt x xs == 0)) [
    | inl e ↦ rw e (All-bubble x xs h a)
    | inr e ↦ rw e (All-rounds k (bubble gt x xs) (All-bubble x xs h a))
  ]

  -- What holds of all elements holds of the sorted ones.
  pub All-sort_list : (xs : List A) → All P xs → All P (sort_list gt xs)
  unfolding sort_list
  All-sort_list xs = All-rounds (suc (length xs * length xs)) xs

module _ {A : Type 0} (gt : A → A → Bool) (p : A → Bool) where
  count-rounds : (k : ℕ) (xs : List A) → count p (rounds gt k xs) ≡ count p xs
  unfolding rounds
  count-rounds k [] = refl
  count-rounds zero (x ∷ xs) = refl
  count-rounds (suc k) (x ∷ xs) = elim (Bool-cases (swaps gt x xs == 0)) [
    | inl e ↦ rw e (count-bubble gt p x xs)
    | inr e ↦ rw e (count-rounds k (bubble gt x xs) ∙ count-bubble gt p x xs)
  ]

  -- Sorting keeps how many elements pass a test.
  pub count-sort_list : (xs : List A) → count p (sort_list gt xs) ≡ count p xs
  unfolding sort_list
  count-sort_list xs = count-rounds (suc (length xs * length xs)) xs
