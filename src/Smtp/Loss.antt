-- ===== src/Smtp/Loss.antt =====
-- Input that `smtp_qp_write` does not carry over.
use sntools.Base.{
  ℕ, ◌≡◌, refl, ap, ◌∙◌, Bool, true, false, not, ◌&&◌, ◌||◌, some, none, [], ◌∷◌, arith, leb, ◌==◌,
  inl, inr, Option-cases, Bool-cases, Bytes,
}
use sntools.Smtp.{CR, LF, crlf, Round, is_allowed, encode, round, wrap, qp_round, prepend, qp_loop}
use sntools.Smtp.Rounds.{qp_loop-cons}

-- The byte behind a CR that ends no CR LF is skipped: two texts that differ in it only are sent
-- alike.
qp_loop-lone_cr :
    (li d e : ℕ) (rest : Bytes)
    → (d == LF) ≡ false
    → (d == CR) ≡ false
    → (e == LF) ≡ false
    → (e == CR) ≡ false
    → qp_loop false li (CR ∷ d ∷ rest) ≡ qp_loop false li (CR ∷ e ∷ rest)
unfolding qp_loop qp_round round wrap
qp_loop-lone_cr li d e rest h k l m = ground arith

-- At the start of a line a dot and an LF are sent as the dot and CR LF that end an SMTP message.
pub qp_loop-dot_line :
    (rest : Bytes)
    → qp_loop false 0 (b'.' ∷ LF ∷ rest) ≡ prepend (b'.' ∷ []) (prepend crlf (qp_loop false 0 rest))
unfolding qp_loop qp_round round wrap is_allowed
qp_loop-dot_line rest = refl

-- A byte from 128 on, or a CR.
unfoldable pub has_eight_bit : Bytes → Bool
has_eight_bit [] = false
has_eight_bit (c ∷ rest) = leb 128 c || has_eight_bit rest

unfoldable pub lacks_cr : Bytes → Bool
lacks_cr [] = true
lacks_cr (c ∷ rest) = not (c == CR) && lacks_cr rest

round_eight_bit : (li c : ℕ) (rest : Bytes) → leb 128 c ≡ true → qp_round li c rest ≡ none
unfolding qp_round round is_allowed encode
round_eight_bit li c rest h = ground arith

round_keeps :
    (li c : ℕ) (rest : Bytes)
    → (c == CR) ≡ false
    → (r : Round) → qp_round li c rest ≡ some r
    → r.skip ≡ false
unfolding qp_round round wrap
round_keeps li c rest h r e = ground arith

qp_loop-none :
    (li c : ℕ) (rest : Bytes) → qp_round li c rest ≡ none → qp_loop false li (c ∷ rest) ≡ none
unfolding qp_loop
qp_loop-none li c rest e = rw (e, qp_loop)

-- In text without CR one byte from 128 on, wherever it stands, overflows the buffer `tmp[4]`.
qp_loop_overflow :
    (li : ℕ) (text : Bytes)
    → lacks_cr text ≡ true
    → has_eight_bit text ≡ true
    → qp_loop false li text ≡ none
unfolding has_eight_bit lacks_cr
qp_loop_overflow li [] l h = cc
qp_loop_overflow li (c ∷ rest) l h = elim (Option-cases (qp_round li c rest)) [
  | inl e ↦ qp_loop-none li c rest e
  | inr (r, e) ↦ elim (Bool-cases (leb 128 c)) [
    | inl big ↦ cc (round_eight_bit li c rest big)
    | inr small ↦
        qp_loop-cons li c rest e
        ∙ ap (λ b. prepend r.out (qp_loop b r.li rest)) (round_keeps li c rest (ground arith) r e)
        ∙ rw (qp_loop_overflow r.li rest (ground arith) (ground arith))
  ]
]
