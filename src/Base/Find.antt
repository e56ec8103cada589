-- ===== src/Base/Find.antt =====
-- Where `strstr` and `strrchr` find what they look for.
use Prim.Native.Nat.{ℕ, zero, suc, ◌+◌, ◌≤◌, ◌<◌}
use mathlib.Core.Path.{◌≡◌, refl, sym, ap, ◌∙◌}
use mathlib.Core.Bool.{true, false}
use mathlib.Core.List.{[], ◌∷◌, ◌++◌, append_assoc}
use mathlib.Core.Option.{none, some}
use native.Mathlib.Omega.{arith}
use sntools.Base.Lists.{length, length-append, take, drop, All, All-append}
use sntools.Base.Tests.{◌==◌, ==_refl, ltb, Bool-cases}
use mathlib.Core.Logic.{inl, inr}
use sntools.Base.Text.{Bytes, contains, is_prefix, find, find_last, copy_n}
use sntools.Base.Int.{ℤ, pos, negsuc}

-- The byte does not occur.
abbrev pub Lacks : ℕ → Bytes → Type 0
Lacks d = All (λ c. (c == d) ≡ false)

pub contains-Lacks : (d : ℕ) (s : Bytes) → contains d s ≡ false → Lacks d s
unfolding contains
contains-Lacks d [] h = tt
contains-Lacks d (c ∷ s) h = (ground arith, contains-Lacks d s (ground arith))

pub is_prefix-append : (pat rest : Bytes) → is_prefix pat (pat ++ rest) ≡ true
unfolding is_prefix
is_prefix-append [] rest = refl
is_prefix-append (c ∷ pat) rest = rw (==_refl c) (is_prefix-append pat rest)

-- A pattern with `d` behind `front` is no prefix of a text whose beginning lacks `d`.
is_prefix-Lacks :
    (front back : Bytes) (d : ℕ) (u v : Bytes)
    → Lacks d u
    → length front < length u
    → is_prefix (front ++ d ∷ back) (u ++ v) ≡ false
unfolding is_prefix
is_prefix-Lacks front back d [] v l h = let no_room : ⊥ = omega arith in elim no_room [ ]
is_prefix-Lacks [] back d (y ∷ u) v (e, l) h = ground arith
is_prefix-Lacks (f ∷ front) back d (y ∷ u) v (e, l) h =
    ground (arith, is_prefix-Lacks front back d u v l)

-- The first occurrence of a pattern, known by a byte `d` that neither the text before it nor the
-- pattern's front has.
pub find-append :
    (front back : Bytes) (d : ℕ) (before rest : Bytes)
    → Lacks d front
    → Lacks d before
    → find (front ++ d ∷ back) (before ++ ((front ++ d ∷ back) ++ rest)) ≡ some (length before)
unfolding find
find-append [] back d [] rest l m = rw (is_prefix-append (d ∷ back) rest) refl
find-append (f ∷ front) back d [] rest l m =
    rw (is_prefix-append (f ∷ (front ++ d ∷ back)) rest) refl
find-append front back d (x ∷ before) rest l (e, m) =
    let u = x ∷ (before ++ front) in
    let text : x ∷ (before ++ ((front ++ d ∷ back) ++ rest)) ≡ u ++ (d ∷ (back ++ rest)) =
      ap (λ t. x ∷ (before ++ t)) (append_assoc front (d ∷ back) rest)
      ∙ ap (◌∷◌ x) (sym (append_assoc before front (d ∷ (back ++ rest)))) in
    let no_prefix : is_prefix (front ++ d ∷ back) (x ∷ (before ++ ((front ++ d ∷ back) ++ rest)))
        ≡ false =
      ap (is_prefix (front ++ d ∷ back)) text
      ∙ is_prefix-Lacks front back d u (d ∷ (back ++ rest))
          (e, All-append (λ c. (c == d) ≡ false) before front m l)
          (omega (arith, length-append before front)) in
    rw (no_prefix, find-append front back d before rest l m) refl

-- The pattern does not begin in the first of two texts that follow each other.
abbrev pub Misses : (pat before behind : Bytes) → Type 0
Misses pat [] behind = Unit
Misses pat (c ∷ before) behind =
    (is_prefix pat (c ∷ (before ++ behind)) ≡ false) × Misses pat before behind

pub find-Misses :
    (pat before rest : Bytes)
    → Misses pat before (pat ++ rest)
    → find pat (before ++ (pat ++ rest)) ≡ some (length before)
unfolding find
find-Misses [] [] [] m = refl
find-Misses [] [] (c ∷ rest) m = refl
find-Misses (c ∷ pat) [] rest m = rw (is_prefix-append (c ∷ pat) rest) refl
find-Misses pat (c ∷ before) rest (e, m) = rw (e, find-Misses pat before rest m) refl

find_last-none : (d : ℕ) (s : Bytes) → Lacks d s → find_last d s ≡ none
unfolding find_last
find_last-none d [] l = refl
find_last-none d (c ∷ s) (e, l) = rw (find_last-none d s l, e) refl

pub find_last-append :
    (d : ℕ) (before behind : Bytes)
    → Lacks d behind
    → find_last d (before ++ d ∷ behind) ≡ some (length before)
unfolding find_last
find_last-append d [] behind l = rw (find_last-none d behind l, ==_refl d) refl
find_last-append d (c ∷ before) behind l = rw (find_last-append d before behind l) refl

pub drop-append : (s rest : Bytes) → drop (length s) (s ++ rest) ≡ rest
drop-append [] rest = refl
drop-append (c ∷ s) rest = drop-append s rest

pub drop-past : (s rest : Bytes) (n k : ℕ) → k ≡ length s + n → drop k (s ++ rest) ≡ drop n rest
drop-past [] rest n k e = ap (λ i. drop i rest) (omega (arith, e))
drop-past (c ∷ s) rest n zero e = let no_room : ⊥ = omega (arith, e) in elim no_room [ ]
drop-past (c ∷ s) rest n (suc k) e = drop-past s rest n k (omega (arith, e))

pub take-append : (s rest : Bytes) → take (length s) (s ++ rest) ≡ s
take-append [] rest = refl
take-append (c ∷ s) rest = ap (◌∷◌ c) (take-append s rest)

pub copy_n-append :
    (size : ℕ) (s rest : Bytes)
    → length s < size
    → copy_n size (pos (length s)) (s ++ rest) ≡ some s
unfolding copy_n
copy_n-append size s rest h =
    let t : ltb (length s) size ≡ true = ground arith in rw (t, take-append s rest) refl

pub length-take : (n : ℕ) (s : Bytes) → (length (take n s) ≤ n) × (length (take n s) ≤ length s)
length-take zero s = (omega arith, omega arith)
length-take (suc n) [] = (omega arith, omega arith)
length-take (suc n) (c ∷ s) = let (h, k) = length-take n s in (omega (arith, h), omega (arith, k))

-- A copy fits its buffer.
pub copy_n-length : (size : ℕ) (n : ℤ) (s a : Bytes) → copy_n size n s ≡ some a → length a < size
unfolding copy_n
copy_n-length size (pos n) s a e = elim (Bool-cases (ltb n size)) [
  | inr f ↦ cc (rw f at e)
  | inl f ↦
      let same : take n s ≡ a = cc (rw f at e) in
      rw (sym same) (ground (arith, (length-take n s).0))
]
copy_n-length size (negsuc n) s a e = cc e
