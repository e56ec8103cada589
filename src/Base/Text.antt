-- ===== src/Base/Text.antt =====
-- C strings as the list of their bytes before the terminating NUL, and the functions of the C
-- library that the sources call on them.
use Prim.Native.Nat.{ℕ, zero, suc, ◌+◌, ◌-◌, ◌*◌, ◌/◌, ◌%◌}
use Prim.Native.Char.{code}
use Prim.Native.String.{String}
use mathlib.Core.Path.{◌≡◌, refl}
use mathlib.Core.Bool.{Bool, true, false, ◌&&◌, ◌||◌}
use mathlib.Core.List.{List, [], ◌∷◌}
use mathlib.Core.Option.{Option, none, some}
use native.Mathlib.Omega.{arith}
use sntools.Base.Int.{ℤ, pos, negsuc, sub_ℕ}
use sntools.Base.Lists.{take}
use sntools.Base.Tests.{◌==◌, leb, ltb, if◌then◌else◌}

abbrev pub Bytes : Type 0
Bytes = List ℕ

-- The bytes of an ASCII literal.
abbrev pub codes : String → Bytes
codes String.[] = []
codes (String.◌∷◌ c s) = code c ∷ codes s

-- `strcmp(a, b) == 0`
unfoldable pub str_eq : Bytes → Bytes → Bool
str_eq [] [] = true
str_eq [] (_ ∷ _) = false
str_eq (_ ∷ _) [] = false
str_eq (a ∷ as') (b ∷ bs) = (a == b) && str_eq as' bs

pub str_eq→eq : (a b : Bytes) → str_eq a b ≡ true → a ≡ b
unfolding str_eq
str_eq→eq [] [] h = refl
str_eq→eq [] (_ ∷ _) h = cc
str_eq→eq (_ ∷ _) [] h = cc
str_eq→eq (a ∷ as') (b ∷ bs) h = ground (arith, str_eq→eq as' bs)

pub str_eq_refl : (a : Bytes) → str_eq a a ≡ true
unfolding str_eq
str_eq_refl [] = refl
str_eq_refl (a ∷ as') = ground (arith, str_eq_refl as')

pub str_eq_sym : (a b : Bytes) → str_eq a b ≡ str_eq b a
unfolding str_eq
str_eq_sym [] [] = refl
str_eq_sym [] (_ ∷ _) = refl
str_eq_sym (_ ∷ _) [] = refl
str_eq_sym (a ∷ as') (b ∷ bs) = ground (arith, str_eq_sym as' bs)

-- `strchr(text, c) != NULL`
unfoldable pub contains : ℕ → Bytes → Bool
contains c [] = false
contains c (d ∷ rest) = d == c || contains c rest

abbrev is_space : ℕ → Bool
is_space c = c == 32 || (leb 9 c && leb c 13)

abbrev pub is_digit : ℕ → Bool
is_digit c = leb b'0' c && leb c b'9'

unfoldable pub skip_space : Bytes → Bytes
skip_space [] = []
skip_space (c ∷ rest) = let skipped = skip_space rest in if is_space c then skipped else c ∷ rest

-- The leading digits as a number.
unfoldable pub digits : ℕ → Bytes → ℕ
digits n [] = n
digits n (c ∷ rest) = let more = digits (n * 10 + (c - b'0')) rest in if is_digit c then more else n

unfoldable pub signed : Bytes → ℤ
signed [] = pos 0
signed (c ∷ rest) =
    if c == b'-'
    then sub_ℕ 0 (digits 0 rest)
    else pos (if c == b'+' then digits 0 rest else digits 0 (c ∷ rest))

-- `atoi`, for numbers that an `int` holds.
unfoldable pub atoi : Bytes → ℤ
unfolding skip_space digits signed
atoi s = signed (skip_space s)

-- What `getopt` finds: each option letter with its argument (empty if it takes none).
abbrev pub Opts : Type 0
Opts = List (ℕ × Bytes)

-- `pat` is a prefix of `s`.
unfoldable pub is_prefix : Bytes → Bytes → Bool
is_prefix [] s = true
is_prefix (c ∷ pat) [] = false
is_prefix (c ∷ pat) (d ∷ s) = (c == d) && is_prefix pat s

-- `strstr(s, pat)`: the offset of the first occurrence.
unfoldable pub find : Bytes → Bytes → Option ℕ
unfolding is_prefix
find pat [] = if is_prefix pat [] then some 0 else none
find pat (c ∷ s) =
    let later = find pat s in
    if is_prefix pat (c ∷ s) then some 0 else elim later [ none ↦ none | some i ↦ some (suc i) ]

-- `strrchr(s, c)`: the offset of the last occurrence.
unfoldable pub find_last : ℕ → Bytes → Option ℕ
find_last c [] = none
find_last c (d ∷ s) = elim (find_last c s) [
  | some i ↦ some (suc i)
  | none ↦ if d == c then some 0 else none
]

-- `strncpy(buffer, s, n)` into `size` cleared bytes of which one must stay NUL; `none` is a write
-- past the buffer, or a copy without its NUL. A negative `n` is a huge `size_t`.
unfoldable pub copy_n : (size : ℕ) → (n : ℤ) → Bytes → Option Bytes
copy_n size (pos n) s = if ltb n size then some (take n s) else none
copy_n size (negsuc _) s = none

-- The digits of a number, for `%i` and `%lu`; `fuel` digits at most.
unfoldable pub decimal_loop : ℕ → ℕ → Bytes → Bytes
decimal_loop zero n out = out
decimal_loop (suc fuel) n out =
    let out' = (b'0' + n % 10) ∷ out in
    let more = decimal_loop fuel (n / 10) out' in if ltb n 10 then out' else more

-- Twenty digits are enough for 64 bits.
unfoldable pub decimal : ℕ → Bytes
unfolding decimal_loop
decimal n = decimal_loop 20 n []

-- `int` as `%i` prints it.
unfoldable pub decimal_ℤ : ℤ → Bytes
unfolding decimal
decimal_ℤ (pos n) = decimal n
decimal_ℤ (negsuc n) = b'-' ∷ decimal (suc n)
