-- ===== src/Smtp/Lines.antt =====
-- How long the lines of the quoted-printable body get.
use sntools.Base.{
  ℕ, ◌+◌, ◌≤◌, ◌<◌, ◌≡◌, refl, ap, ◌∙◌, Bool, true, false, ◌&&◌, ◌||◌, some, [], ◌∷◌, ◌++◌, arith,
  ltb, ◌==◌, if◌then◌else◌, inl, inr, Bool-cases, Bytes, replicate,
}
use sntools.Smtp.{
  CR, LF, crlf, starts_crlf, is_allowed, hex_digit, encode, round, wrap, qp_round, qp_loop,
  smtp_qp_write,
}
use sntools.Smtp.Rounds.{qp_loop-cons, round_lf, round-allowed, qp_round-wrap}

-- No line of the text is longer than `limit`; `col` bytes of its first line are already out.
unfoldable pub lines_within : (limit col : ℕ) → Bytes → Bool
lines_within limit col [] = true
lines_within limit col (c ∷ rest) =
    let same = lines_within limit col rest in
    let more = lines_within limit (col + 1) rest in
    let new = lines_within limit 0 rest in
    if c == LF then new else if c == CR then same else ltb col limit && more

-- Lines of bytes that are sent as they are.
unfoldable pub is_plain : Bytes → Bool
is_plain [] = true
is_plain (c ∷ rest) = (is_allowed c || c == LF) && is_plain rest

abbrev Fits : ℕ → Bytes → Type 0
Fits li text = (out : Bytes) × (qp_loop false li text ≡ some out) × (lines_within 76 li out ≡ true)

allowed-ne : (c : ℕ) → is_allowed c ≡ true → ((c == LF) ≡ false) × ((c == CR) ≡ false)
unfolding is_allowed
allowed-ne c h = (ground arith, ground arith)

wrap-break :
    (c li : ℕ)
    → (c == LF) ≡ false
    → (c == CR) ≡ false
    → wrap (record { out = c ∷ []; li = li + 1; skip = false; current = c }) ≡ (
        if li == 74
        then record { out = c ∷ b'=' ∷ crlf; li = 0; skip = false; current = c }
        else record { out = c ∷ []; li = li + 1; skip = false; current = c })
unfolding wrap
wrap-break c li lf cr = ground arith

module _ (li c : ℕ) (rest : Bytes) (small : li ≤ 74) where
  Fits-allowed :
      is_allowed c ≡ true
      → (c == b'.' && starts_crlf rest) ≡ false
      → ((li' : ℕ) → li' ≤ 74 → Fits li' rest)
      → Fits li (c ∷ rest)
  unfolding lines_within
  Fits-allowed h dot ih =
      let (lf, cr) = allowed-ne c h in
      let r =
        qp_round-wrap li c rest lf cr dot (round-allowed li c rest lf cr h)
        ∙ ap some (wrap-break c li lf cr) in
      elim (Bool-cases (li == 74)) [
        | inl e ↦
            let (out, w, fits) = ih 0 (omega arith) in
            (c ∷ b'=' ∷ CR ∷ LF ∷ out, qp_loop-cons li c rest (rw e at r) ∙ rw w, ground arith)
        | inr e ↦
            let (out, w, fits) = ih (li + 1) (ground arith) in
            (c ∷ out, qp_loop-cons li c rest (rw e at r) ∙ rw w, ground arith)
      ]

  Fits-lf : (c == LF) ≡ true → Fits 0 rest → Fits li (c ∷ rest)
  unfolding lines_within
  Fits-lf h (out, w, fits) =
      (CR ∷ LF ∷ out, qp_loop-cons li c rest (round_lf li c rest h) ∙ rw w, fits)

plain-dot : (c : ℕ) (rest : Bytes) → is_plain rest ≡ true → (c == b'.' && starts_crlf rest) ≡ false
unfolding is_plain is_allowed
plain-dot c [] h = ground arith
plain-dot c (d ∷ rest) h = ground arith

qp_loop-Fits : (li : ℕ) (text : Bytes) → li ≤ 74 → is_plain text ≡ true → Fits li text
unfolding qp_loop is_plain lines_within
qp_loop-Fits li [] small h = ([], refl, refl)
qp_loop-Fits li (c ∷ rest) small h = elim (Bool-cases (is_allowed c)) [
  | inl e ↦
      let more : is_plain rest ≡ true = ground arith in
      Fits-allowed li c rest small e (plain-dot c rest more) (λ l s. qp_loop-Fits l rest s more)
  | inr e ↦
      Fits-lf li c rest small (ground arith) (qp_loop-Fits 0 rest (omega arith) (ground arith))
]

-- Lines that need no encoding, of any length, are sent in lines of at most the 76 characters that
-- RFC 2045 allows.
pub smtp_qp_write-lines_within :
    (text : Bytes)
    → is_plain text ≡ true
    → (out : Bytes) × (smtp_qp_write text ≡ some out) × (lines_within 76 0 out ≡ true)
unfolding smtp_qp_write
smtp_qp_write-lines_within text h = qp_loop-Fits 0 text (omega arith) h

-- Bytes that are all sent as they are, with no line end among them.
unfoldable pub all_allowed : Bytes → Bool
all_allowed [] = true
all_allowed (c ∷ rest) = is_allowed c && all_allowed rest

round_past :
    (li c : ℕ) (rest : Bytes)
    → 75 < li
    → is_allowed c ≡ true
    → qp_round li c rest ≡ some (record { out = c ∷ []; li = li + 1; skip = false; current = c })
unfolding qp_round
round_past li c rest past h =
    let (lf, cr) = allowed-ne c h in
    ground (arith, round-allowed li c rest lf cr h, wrap-break c li lf cr)

qp_loop_past :
    (li : ℕ) (line : Bytes) → 75 < li → all_allowed line ≡ true → qp_loop false li line ≡ some line
unfolding qp_loop all_allowed
qp_loop_past li [] past h = refl
qp_loop_past li (c ∷ line) past h =
    qp_loop-cons li c line (round_past li c line past (ground arith))
    ∙ rw (qp_loop_past (li + 1) line (omega arith) (ground arith))

-- Behind 74 characters and a `=`, which is encoded in three, the count has passed 75 and never
-- meets it again: however long the rest of the line is, it is sent without a soft line break.
smtp_qp_write-long_line :
    (line : Bytes)
    → all_allowed line ≡ true
    → smtp_qp_write (replicate 74 b'a' ++ b'=' ∷ line)
      ≡ some (replicate 74 b'a' ++ b'=' ∷ b'3' ∷ b'D' ∷ line)
unfolding smtp_qp_write qp_loop qp_round round wrap is_allowed encode hex_digit
smtp_qp_write-long_line line h = rw (qp_loop_past 77 line (omega arith) h)
