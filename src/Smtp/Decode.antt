-- ===== src/Smtp/Decode.antt =====
-- A quoted-printable decoder after RFC 2045, and the round trip of `smtp_qp_write` through it.
use sntools.Base.{
  ℕ, ◌+◌, ◌-◌, ◌*◌, ◌/◌, ◌%◌, ◌<◌, ◌≡◌, refl, ap, Bool, true, false, ◌&&◌, not, some, [], ◌∷◌, ◌++◌,
  arith, ltb, leb, ◌==◌, if◌then◌else◌, inl, inr, Bool-cases, Bytes, append_assoc, ◌∙◌,
}
use sntools.Smtp.{
  CR, LF, crlf, Round, head_is, starts_crlf, is_allowed, hex_digit, wrap, qp_round, prepend,
  qp_loop, smtp_qp_write,
}
use sntools.Smtp.Rounds.{
  round_lf, round_crlf, round-allowed, round-encoded, qp_round-wrap, wrap-skip, qp_loop-cons,
}

unfoldable pub hex_value : ℕ → ℕ
hex_value c = if leb c b'9' then c - b'0' else c - b'A' + 10

-- `=` and a line end is a soft break, `=` and two digits is a byte, the rest stands for itself.
unfoldable pub decode : Bytes → Bytes
unfolding hex_value
decode [] = []
decode (c ∷ []) = c ∷ []
decode (c ∷ d ∷ []) = c ∷ d ∷ []
decode (c ∷ d ∷ e ∷ rest) =
    let after = decode rest in
    let next = decode (d ∷ e ∷ rest) in
    if c == b'='
    then (if d == CR && e == LF then after else (hex_value d * 16 + hex_value e) ∷ after)
    else c ∷ next

-- The text with each line end, LF or CR LF, as CR LF.
unfoldable pub with_crlf : Bytes → Bytes
with_crlf [] = []
with_crlf (c ∷ rest) =
    if c == LF
    then CR ∷ LF ∷ with_crlf rest
    else if c == CR
    then with_crlf rest
    else c ∷ with_crlf rest

-- 7-bit text whose CRs all end lines, in which no dot stands right before a CR LF.
unfoldable pub is_clean : Bytes → Bool
is_clean [] = true
is_clean (c ∷ rest) =
    ltb c 128
    && (if c == CR then head_is LF rest else true)
    && (if c == b'.' then not (starts_crlf rest) else true)
    && is_clean rest

-- Decoding text without a `=` at its head passes the head on.
decode-cons : (c : ℕ) (rest : Bytes) → (c == b'=') ≡ false → decode (c ∷ rest) ≡ c ∷ decode rest
unfolding decode
decode-cons c [] h = refl
decode-cons c (d ∷ []) h = refl
decode-cons c (d ∷ e ∷ rest) h = rw h

decode_soft_break : (rest : Bytes) → decode (b'=' ∷ CR ∷ LF ∷ rest) ≡ decode rest
unfolding decode
decode_soft_break rest = refl

hex_value-hex_digit :
    (d : ℕ) → d < 16 → (hex_value (hex_digit d) ≡ d) × ((hex_digit d == CR) ≡ false)
unfolding hex_value hex_digit
hex_value-hex_digit d h = ground arith

decode-encode :
    (c : ℕ) (rest : Bytes)
    → c < 128
    → decode (b'=' ∷ hex_digit (c / 16) ∷ hex_digit (c % 16) ∷ rest) ≡ c ∷ decode rest
unfolding decode
decode-encode c rest h =
    let (hi, ne) = hex_value-hex_digit (c / 16) (omega arith) in
    let (lo, _) = hex_value-hex_digit (c % 16) (omega arith) in
    rw (ne, hi, lo) (ap (λ n. n ∷ decode rest) (omega arith))

-- A written byte that stands for `c` still does when a soft line break follows it.
decode-wrap :
    (r : Round) (c : ℕ) (x : Bytes)
    → (r.current == LF) ≡ false
    → (r.current == CR) ≡ false
    → ((y : Bytes) → decode (r.out ++ y) ≡ c ∷ decode y)
    → decode ((wrap r).out ++ x) ≡ c ∷ decode x
unfolding wrap
decode-wrap r c x lf cr h = elim (Bool-cases (r.li == 75)) [
  | inl e ↦
      rw (cr, lf, e, append_assoc r.out (b'=' ∷ crlf) x)
        (h (b'=' ∷ CR ∷ LF ∷ x) ∙ ap (◌∷◌ c) (decode_soft_break x))
  | inr e ↦ rw (cr, lf, e) (h x)
]

-- The loop writes something that decodes to `text` in canonical form, whatever follows it.
abbrev Writes : ℕ → Bytes → Type 0
Writes li text =
    (out : Bytes) × (qp_loop false li text ≡ some out)
    × ((y : Bytes) → decode (out ++ y) ≡ with_crlf text ++ decode y)

Writes-cons :
    (li c : ℕ) (rest : Bytes) (r : Round)
    → (c == LF) ≡ false
    → (c == CR) ≡ false
    → qp_round li c rest ≡ some (wrap r)
    → r.skip ≡ false
    → ((y : Bytes) → decode ((wrap r).out ++ y) ≡ c ∷ decode y)
    → Writes (wrap r).li rest
    → Writes li (c ∷ rest)
unfolding with_crlf
Writes-cons li c rest r lf cr e s d (out, w, i) = (
  (wrap r).out ++ out,
  qp_loop-cons li c rest e
      ∙ ap (λ b. prepend (wrap r).out (qp_loop b (wrap r).li rest)) (wrap-skip r ∙ s)
      ∙ rw w,
  λ y. rw (lf, cr, append_assoc (wrap r).out out y) (d (out ++ y) ∙ ap (◌∷◌ c) (i y)),
)

is_allowed-ne : (c : ℕ) → is_allowed c ≡ true → (c == b'=') ≡ false
unfolding is_allowed
is_allowed-ne c h = ground arith

-- A byte that ends no line.
Writes-byte :
    (li c : ℕ) (rest : Bytes)
    → (c == LF) ≡ false
    → (c == CR) ≡ false
    → (c == b'.' && starts_crlf rest) ≡ false
    → c < 128
    → ((li' : ℕ) → Writes li' rest)
    → Writes li (c ∷ rest)
Writes-byte li c rest lf cr dot h ih = elim (Bool-cases (is_allowed c)) [
  | inl e ↦
      let r : Round = record { out = c ∷ []; li = li + 1; skip = false; current = c } in
      Writes-cons li c rest r lf cr
        (qp_round-wrap li c rest lf cr dot (round-allowed li c rest lf cr e)) refl
        (λ y. decode-wrap r c y lf cr (λ z. decode-cons c z (is_allowed-ne c e))) (ih (wrap r).li)
  | inr e ↦
      let r : Round = record {
        out = b'=' ∷ hex_digit (c / 16) ∷ hex_digit (c % 16) ∷ [];
        li = li + 3;
        skip = false;
        current = c;
      } in
      Writes-cons li c rest r lf cr
        (qp_round-wrap li c rest lf cr dot (round-encoded li c rest lf cr e h)) refl
        (λ y. decode-wrap r c y lf cr (λ z. decode-encode c z h)) (ih (wrap r).li)
]

decode_line_end :
    {text : Bytes} (out y : Bytes)
    → decode (out ++ y) ≡ text
    → decode (CR ∷ LF ∷ (out ++ y)) ≡ CR ∷ LF ∷ text
decode_line_end out y i =
    decode-cons CR (LF ∷ (out ++ y)) refl
    ∙ ap (◌∷◌ CR) (decode-cons LF (out ++ y) refl ∙ ap (◌∷◌ LF) i)

Writes-newline :
    (li : ℕ) (c : ℕ) (rest : Bytes) → (c == LF) ≡ true → Writes 0 rest → Writes li (c ∷ rest)
unfolding with_crlf
Writes-newline li c rest h (out, w, i) = (
  crlf ++ out,
  rw (qp_loop-cons li c rest (round_lf li c rest h), w),
  λ y. rw h (decode_line_end out y (i y)),
)

Writes-crlf :
    (li c d : ℕ) (rest : Bytes)
    → (c == LF) ≡ false
    → (c == CR) ≡ true
    → (d == LF) ≡ true
    → Writes 0 rest
    → Writes li (c ∷ d ∷ rest)
unfolding with_crlf qp_loop
Writes-crlf li c d rest n h k (out, w, i) = (
  crlf ++ out,
  qp_loop-cons li c (d ∷ rest) (round_crlf li c (d ∷ rest) h k) ∙ rw w,
  λ y. rw (n, h, k) (decode_line_end out y (i y)),
)

pub is_clean-parts :
    (c : ℕ) (rest : Bytes)
    → is_clean (c ∷ rest) ≡ true
    → (c < 128)
      × ((c == CR) ≡ true → head_is LF rest ≡ true)
      × ((c == b'.' && starts_crlf rest) ≡ false)
      × (is_clean rest ≡ true)
unfolding is_clean
is_clean-parts c rest h = (ground arith, ground arith, ground arith, ground arith)

qp_loop-Writes : (li : ℕ) (text : Bytes) → is_clean text ≡ true → Writes li text
unfolding qp_loop with_crlf decode
qp_loop-Writes li [] h = ([], refl, λ y. refl)
qp_loop-Writes li (c ∷ []) h =
    let (seven_bit, ends, dot, _) = is_clean-parts c [] h in
    elim (Bool-cases (c == LF)) [
      | inl lf ↦ Writes-newline li c [] lf ([], refl, λ y. refl)
      | inr lf ↦ elim (Bool-cases (c == CR)) [
        | inl cr ↦ absurd (ground (arith, ends cr))
        | inr cr ↦ Writes-byte li c [] lf cr dot seven_bit (λ li'. ([], refl, λ y. refl))
      ]
    ]
qp_loop-Writes li (c ∷ d ∷ rest) h =
    let (seven_bit, ends, dot, more) = is_clean-parts c (d ∷ rest) h in
    elim (Bool-cases (c == LF)) [
      | inl lf ↦ Writes-newline li c (d ∷ rest) lf (qp_loop-Writes 0 (d ∷ rest) more)
      | inr lf ↦ elim (Bool-cases (c == CR)) [
        | inl cr ↦
            Writes-crlf li c d rest lf cr (ends cr)
              (qp_loop-Writes 0 rest (is_clean-parts d rest more).3)
        | inr cr ↦
            Writes-byte li c (d ∷ rest) lf cr dot seven_bit
              (λ li'. qp_loop-Writes li' (d ∷ rest) more)
      ]
    ]

-- The same, with more text behind it.
pub smtp_qp_write-decode_append :
    (text : Bytes)
    → is_clean text ≡ true
    → (out : Bytes) × (smtp_qp_write text ≡ some out)
      × ((y : Bytes) → decode (out ++ y) ≡ with_crlf text ++ decode y)
unfolding smtp_qp_write
smtp_qp_write-decode_append text h = qp_loop-Writes 0 text h
