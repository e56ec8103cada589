-- ===== src/Smtp/Rounds.antt =====
-- One round of `smtp_qp_write`, kind of byte by kind of byte.
use sntools.Base.{
  ℕ, ◌+◌, ◌/◌, ◌%◌, ◌<◌, ◌≡◌, true, false, ◌&&◌, some, [], ◌∷◌, arith, ltb, ◌==◌, Bytes,
}
use sntools.Smtp.{
  CR, LF, crlf, Round, head_is, starts_crlf, is_allowed, hex_digit, encode, round, wrap, qp_round,
  prepend, qp_loop,
}

-- The rounds on clean text.
module _ (li c : ℕ) (rest : Bytes) where
  pub round_lf :
      (c == LF) ≡ true
      → qp_round li c rest ≡ some (record { out = crlf; li = 0; skip = false; current = c })
  unfolding qp_round round wrap
  round_lf h = ground arith

  pub round_crlf :
      (c == CR) ≡ true
      → head_is LF rest ≡ true
      → qp_round li c rest ≡ some (record { out = crlf; li = 0; skip = true; current = LF })
  unfolding qp_round round wrap
  round_crlf h k = ground arith

  module _ (not_lf : (c == LF) ≡ false) (not_cr : (c == CR) ≡ false) where
    pub round-allowed :
        is_allowed c ≡ true
        → round li c rest ≡ some (record { out = c ∷ []; li = li + 1; skip = false; current = c })
    unfolding round
    round-allowed h = rw (not_lf, not_cr, h)

    pub round-encoded :
        is_allowed c ≡ false
        → c < 128
        → round li c rest
          ≡ some (record {
            out = b'=' ∷ hex_digit (c / 16) ∷ hex_digit (c % 16) ∷ [];
            li = li + 3;
            skip = false;
            current = c;
          })
    unfolding round encode
    round-encoded h k = let e : ltb c 128 ≡ true = ground arith in rw (not_lf, not_cr, h, e)

    pub qp_round-wrap :
        (c == b'.' && starts_crlf rest) ≡ false
        → {r : Round} → round li c rest ≡ some r
        → qp_round li c rest ≡ some (wrap r)
    unfolding qp_round
    qp_round-wrap no_dot e = ground arith

pub wrap-skip : (r : Round) → (wrap r).skip ≡ r.skip
unfolding wrap
wrap-skip r = ground arith

pub qp_loop-cons :
    (li c : ℕ) (rest : Bytes) {r : Round}
    → qp_round li c rest ≡ some r
    → qp_loop false li (c ∷ rest) ≡ prepend r.out (qp_loop r.skip r.li rest)
unfolding qp_loop
qp_loop-cons li c rest e = rw (e, qp_loop)
