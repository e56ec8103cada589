-- ===== src/Pairs.antt =====
-- A table with one item for each pair of names: what src/hostwatch.c and src/snort-scan-util.c share.
use sntools.Base.{
  ℕ, zero, suc, ◌≤◌, ◌≡◌, refl, ap, ◌∙◌, sym, Bool, true, false, ◌&&◌, ◌||◌, ◌⊎◌, Option, none,
  some, List, [], ◌∷◌, ◌++◌, arith, if◌then◌else◌, inl, inr, Bool-cases, Option-cases, modify,
  count, count-append, length, All, Bytes, str_eq, str_eq→eq, str_eq_refl,
}

module _ {A : Type 0} where
  -- The index of the first element that passes the test.
  unfoldable pub find_index : (A → Bool) → List A → Option ℕ
  find_index p [] = none
  find_index p (x ∷ xs) =
      let later = find_index p xs in
      if p x then some 0 else elim later [ none ↦ none | some i ↦ some (suc i) ]

  module _ (p : A → Bool) where
    pub find_index-none : (xs : List A) → find_index p xs ≡ none → count p xs ≡ 0
    unfolding find_index
    find_index-none [] h = refl
    find_index-none (x ∷ xs) h = ground (arith, find_index-none xs)

    pub find_index-some : (xs : List A) (i : ℕ) → find_index p xs ≡ some i → 1 ≤ count p xs
    unfolding find_index
    find_index-some [] i h = cc
    find_index-some (x ∷ xs) i h = elim (Bool-cases (p x)) [
      | inl e ↦ rw e (omega arith)
      | inr e ↦ elim (Option-cases (find_index p xs)) [
        | inl k ↦ cc (rw (e, find_index, k) at h)
        | inr (j, k) ↦ rw e (omega (arith, find_index-some xs j k))
      ]
    ]

    pub count-modify :
        (f : A → A) (i : ℕ) (xs : List A)
        → ((x : A) → p (f x) ≡ p x)
        → count p (modify i f xs) ≡ count p xs
    count-modify f i [] s = refl
    count-modify f zero (x ∷ xs) s = rw (s x) refl
    count-modify f (suc i) (x ∷ xs) s = rw (count-modify f i xs s) refl

  module _ (p : A → Bool) where
    pub find_index-modify :
        (f : A → A) (i : ℕ) (xs : List A)
        → ((x : A) → p (f x) ≡ p x)
        → find_index p (modify i f xs) ≡ find_index p xs
    unfolding find_index
    find_index-modify f i [] s = refl
    find_index-modify f zero (x ∷ xs) s = rw (s x) refl
    find_index-modify f (suc i) (x ∷ xs) s = rw (find_index-modify f i xs s) refl

    pub find_index-concat :
        (xs : List A) (x : A)
        → find_index p xs ≡ none
        → p x ≡ true
        → find_index p (xs ++ x ∷ []) ≡ some (length xs)
    unfolding find_index
    find_index-concat [] x h e = rw e refl
    find_index-concat (y ∷ xs) x h e = elim (Bool-cases (p y)) [
      | inl f ↦ cc (rw f at h)
      | inr f ↦ elim (Option-cases (find_index p xs)) [
        | inl k ↦ rw (f, find_index-concat xs x k e) refl
        | inr (j, k) ↦ cc (rw (f, k) at h)
      ]
    ]

    module _ (P Q : A → Type 0) (stays : (x : A) → p x ≡ false → P x → Q x) where
      pub All-not_found : (xs : List A) → count p xs ≡ 0 → All P xs → All Q xs
      All-not_found [] h a = tt
      All-not_found (x ∷ xs) h (k, ks) = elim (Bool-cases (p x)) [
        | inl e ↦ let no_room : ⊥ = omega (arith, rw e at h) in elim no_room [ ]
        | inr e ↦ (stays x e k, All-not_found xs (omega (arith, rw e at h)) ks)
      ]

      -- A change of the only element that passes the test.
      pub All-modify_found :
          (f : A → A) (i : ℕ) (xs : List A)
          → find_index p xs ≡ some i
          → count p xs ≤ 1
          → ((x : A) → p x ≡ true → P x → Q (f x))
          → All P xs
          → All Q (modify i f xs)
      unfolding find_index
      All-modify_found f i [] e once g a = cc
      All-modify_found f i (x ∷ xs) e once g (k, ks) = elim (Bool-cases (p x)) [
        | inl t ↦
            let here : 0 ≡ i = cc (rw (t, find_index) at e) in
            rw (sym here) (g x t k, All-not_found xs (omega (arith, rw t at once)) ks)
        | inr t ↦ elim (Option-cases (find_index p xs)) [
          | inl n ↦ cc (rw (t, find_index, n) at e)
          | inr (j, n) ↦
              let later : suc j ≡ i = cc (rw (t, find_index, n) at e) in
              rw (sym later)
                (stays x t k, All-modify_found f j xs n (omega (arith, rw t at once)) g ks)
        ]
      ]

module _ {A : Type 0} (first second : A → Bytes) where
  abbrev pub is_pair : Bytes → Bytes → A → Bool
  is_pair a b x = if str_eq (first x) a then str_eq (second x) b else false

  -- No two elements have the same pair.
  abbrev pub AtMostOnce : List A → Type 0
  AtMostOnce xs = (a b : Bytes) → count (is_pair a b) xs ≤ 1

  pub is_pair→eq : (a b : Bytes) (x : A) → is_pair a b x ≡ true → (first x ≡ a) × (second x ≡ b)
  is_pair→eq a b x h = elim (Bool-cases (str_eq (first x) a)) [
    | inr e ↦ cc (rw e at h)
    | inl e ↦ (str_eq→eq (first x) a e, str_eq→eq (second x) b (rw e at h))
  ]

  pub is_pair_refl : (x : A) → is_pair (first x) (second x) x ≡ true
  is_pair_refl x = rw (str_eq_refl (first x), str_eq_refl (second x)) refl

  -- A new element of a pair that has none.
  pub concat-AtMostOnce :
      (xs : List A) (x : A)
      → count (is_pair (first x) (second x)) xs ≡ 0
      → AtMostOnce xs
      → AtMostOnce (xs ++ x ∷ [])
  concat-AtMostOnce xs x h once a b = elim (Bool-cases (is_pair a b x)) [
    | inr e ↦ rw (count-append (is_pair a b) xs (x ∷ []), e) (omega (arith, once a b))
    | inl e ↦
        let (s, d) = is_pair→eq a b x e in
        let none_yet : count (is_pair a b) xs ≡ 0 =
          ap (λ c. count (is_pair c b) xs) (sym s)
          ∙ ap (λ c. count (is_pair (first x) c) xs) (sym d)
          ∙ h in
        rw (count-append (is_pair a b) xs (x ∷ []), e) (omega (arith, none_yet))
  ]

-- The names x and y stand for the pair of a and b, in either direction if `both`.
abbrev pub connects : (both : Bool) → (a b x y : Bytes) → Bool
connects both a b x y =
    (if str_eq x a then str_eq y b else false)
    || (both && (if str_eq x b then str_eq y a else false))

pub connects_turned : (a b x y : Bytes) → connects true a b y x ≡ connects true a b x y
connects_turned a b x y = ground arith

pub connects_refl : (both : Bool) (a b : Bytes) → connects both a b a b ≡ true
connects_refl both a b = rw (str_eq_refl a, str_eq_refl b) refl

pub connects→eq :
    (both : Bool) (a b x y : Bytes)
    → connects both a b x y ≡ true
    → ((x ≡ a) × (y ≡ b)) ⊎ ((both ≡ true) × (x ≡ b) × (y ≡ a))
connects→eq both a b x y h =
    ground (arith, str_eq→eq x a, str_eq→eq y b, str_eq→eq x b, str_eq→eq y a)
