-- ===== src/Base/Decimal.antt =====
-- `atoi` reads back what `%i` and `%lu` print.
use Prim.Native.Nat.{ℕ, zero, suc, ◌+◌, ◌-◌, ◌*◌, ◌/◌, ◌%◌, ◌^◌, ◌<◌, ◌≤◌}
use mathlib.Core.Path.{◌≡◌, refl, sym, ap, ◌∙◌}
use mathlib.Core.Logic.{inl, inr}
use mathlib.Core.Bool.{true, false}
use mathlib.Core.List.{[], ◌∷◌, ◌++◌}
use native.Mathlib.Omega.{arith}
use native.Mathlib.Nat.{pow-suc}
use sntools.Base.Tests.{ltb, ◌==◌, Bool-cases}
use sntools.Base.Int.{ℤ, pos, negsuc}
use sntools.Base.Text.{
  Bytes, is_digit, digits, decimal_loop, decimal, decimal_ℤ, skip_space, signed, atoi,
}
use sntools.Base.Find.{Lacks}
use sntools.Base.Lists.{length}

-- Behind the digits of `n` the reading goes on as from `n`.
digits-decimal_loop :
    (fuel n : ℕ) (out rest : Bytes)
    → n < 10 ^ fuel
    → digits 0 (decimal_loop fuel n out ++ rest) ≡ digits n (out ++ rest)
unfolding digits decimal_loop
digits-decimal_loop zero n out rest h = let e : n ≡ 0 = omega arith in rw e refl
digits-decimal_loop (suc fuel) n out rest h =
    let out' = (b'0' + n % 10) ∷ out in
    let digit : is_digit (b'0' + n % 10) ≡ true = ground arith in
    elim (Bool-cases (ltb n 10)) [
      | inl e ↦ let same : 0 + (b'0' + n % 10 - b'0') ≡ n = grind arith in rw (e, digit, same) refl
      | inr e ↦
          let bound : n < 10 ^ fuel * 10 = rw (sym (pow-suc 10 fuel)) h in
          let less : n / 10 < 10 ^ fuel = omega arith in
          let same : n / 10 * 10 + (b'0' + n % 10 - b'0') ≡ n = omega arith in
          let last : digits (n / 10) (out' ++ rest) ≡ digits n (out ++ rest) =
            rw (digit, same) refl in
          rw e (digits-decimal_loop fuel (n / 10) out' rest less ∙ last)
    ]

starts-digit :
    (fuel n : ℕ) (out : Bytes)
    → (d : ℕ) × (more : Bytes) × (decimal_loop (suc fuel) n out ≡ d ∷ more) × (is_digit d ≡ true)
unfolding decimal_loop
starts-digit zero n out = (
  b'0' + n % 10,
  out,
  elim (Bool-cases (ltb n 10)) [ inl e ↦ rw e refl | inr e ↦ rw e refl ],
  ground arith,
)
starts-digit (suc fuel) n out = elim (Bool-cases (ltb n 10)) [
  | inl e ↦ (b'0' + n % 10, out, rw e refl, ground arith)
  | inr e ↦
      let (d, more, f, digit) = starts-digit fuel (n / 10) ((b'0' + n % 10) ∷ out) in
      (d, more, rw e f, digit)
]

-- No digit follows.
abbrev pub NoDigit : Bytes → Type 0
NoDigit [] = Unit
NoDigit (c ∷ rest) = is_digit c ≡ false

digits-NoDigit : (n : ℕ) (rest : Bytes) → NoDigit rest → digits n rest ≡ n
unfolding digits
digits-NoDigit n [] h = refl
digits-NoDigit n (c ∷ rest) h = rw h refl

atoi-digit : (d : ℕ) (s : Bytes) → is_digit d ≡ true → atoi (d ∷ s) ≡ pos (digits 0 (d ∷ s))
unfolding atoi skip_space signed
atoi-digit d s h = ground arith

pub atoi-decimal :
    (n : ℕ) (rest : Bytes) → n < 10 ^ 20 → NoDigit rest → atoi (decimal n ++ rest) ≡ pos n
unfolding decimal
atoi-decimal n rest h no_digit =
    let (d, more, e, digit) = starts-digit 19 n [] in
    ap (λ s. atoi (s ++ rest)) e
    ∙ atoi-digit d (more ++ rest) digit
    ∙ ap (λ s. pos (digits 0 (s ++ rest))) (sym e)
    ∙ ap pos (digits-decimal_loop 20 n [] rest h ∙ digits-NoDigit n rest no_digit)

decimal_loop-Lacks :
    (d fuel n : ℕ) (out : Bytes)
    → is_digit d ≡ false
    → Lacks d out
    → Lacks d (decimal_loop fuel n out)
unfolding decimal_loop
decimal_loop-Lacks d zero n out h l = l
decimal_loop-Lacks d (suc fuel) n out h l =
    let digit : ((b'0' + n % 10) == d) ≡ false = ground arith in
    elim (Bool-cases (ltb n 10)) [
      | inl e ↦ rw e (digit, l)
      | inr e ↦ rw e (decimal_loop-Lacks d fuel (n / 10) ((b'0' + n % 10) ∷ out) h (digit, l))
    ]

-- Only digits are printed.
pub decimal-Lacks : (d n : ℕ) → is_digit d ≡ false → Lacks d (decimal n)
unfolding decimal
decimal-Lacks d n h = decimal_loop-Lacks d 20 n [] h tt

length-decimal_loop :
    (fuel n : ℕ) (out : Bytes) → length (decimal_loop fuel n out) ≤ fuel + length out
unfolding decimal_loop
length-decimal_loop zero n out = omega arith
length-decimal_loop (suc fuel) n out = elim (Bool-cases (ltb n 10)) [
  | inl e ↦ rw e (omega arith)
  | inr e ↦ rw e (omega (arith, length-decimal_loop fuel (n / 10) ((b'0' + n % 10) ∷ out)))
]

pub length-decimal : (n : ℕ) → length (decimal n) ≤ 20
unfolding decimal
length-decimal n = length-decimal_loop 20 n []

pub length-decimal_ℤ : (z : ℤ) → length (decimal_ℤ z) ≤ 21
unfolding decimal_ℤ
length-decimal_ℤ (pos n) = omega (arith, length-decimal n)
length-decimal_ℤ (negsuc n) = omega (arith, length-decimal (suc n))
