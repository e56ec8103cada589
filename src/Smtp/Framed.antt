-- ===== src/Smtp/Framed.antt =====
-- The end of the data is found where it is: no CR LF, dot, CR LF stands in the text that was sent.
use sntools.Base.{
  ℕ, ◌+◌, ◌/◌, ◌%◌, ◌<◌, ◌≡◌, refl, sym, ap, ◌∙◌, Bool, true, false, ◌&&◌, not, Option, none, some,
  [], ◌∷◌, ◌++◌, arith, if◌then◌else◌, inl, inr, Bool-cases, ◌==◌, Bytes, length, codes, is_prefix,
  find, Misses, find-Misses,
}
use sntools.Smtp.{
  CR, LF, crlf, Round, starts_crlf, is_allowed, hex_digit, wrap, prepend, qp_loop, smtp_qp_write,
}
use sntools.Smtp.Rounds.{
  wrap-skip, round_lf, round_crlf, round-allowed, round-encoded, qp_round-wrap, qp_loop-cons,
}
use sntools.Smtp.Decode.{is_clean, is_clean-parts}

-- No dot stands at the end of a line, or of the text.
abbrev pub starts_word : Bytes → Bool
starts_word [] = false
starts_word (c ∷ _) = not (c == CR) && not (c == LF)

unfoldable pub ends_no_line : Bytes → Bool
ends_no_line [] = true
ends_no_line (c ∷ rest) = (if c == b'.' then starts_word rest else true) && ends_no_line rest

-- Behind each dot comes a byte that is no CR.
abbrev pub starts_other : Bytes → Bool
starts_other [] = false
starts_other (c ∷ _) = not (c == CR)

unfoldable pub dots_inside : Bytes → Bool
dots_inside [] = true
dots_inside (c ∷ rest) = (if c == b'.' then starts_other rest else true) && dots_inside rest

abbrev Keeps : ℕ → Bytes → Type 0
Keeps c out =
    ((y : Bytes)
      → ((c == b'.') ≡ true → starts_other y ≡ true)
      → dots_inside y ≡ true
      → dots_inside (out ++ y) ≡ true)
    × ((y : Bytes) → starts_other (out ++ y) ≡ true)

wrap-Keeps_allowed :
    (li c : ℕ)
    → (c == LF) ≡ false
    → (c == CR) ≡ false
    → Keeps c (wrap (record { out = c ∷ []; li = li; skip = false; current = c })).out
unfolding wrap dots_inside
wrap-Keeps_allowed li c lf cr = elim (Bool-cases (li == 75)) [
  | inl e ↦ rw (lf, cr, e) (λ y h k. ground (arith, h, k), λ y. rw cr refl)
  | inr e ↦ rw (lf, cr, e) (λ y h k. ground (arith, h, k), λ y. rw cr refl)
]

hex_digit-inside : (d : ℕ) → ((hex_digit d == b'.') ≡ false)
unfolding hex_digit
hex_digit-inside d = ground arith

wrap-Keeps_encoded :
    (li c h l : ℕ)
    → (c == LF) ≡ false
    → (c == CR) ≡ false
    → (h == b'.') ≡ false
    → (l == b'.') ≡ false
    → Keeps c (wrap (record { out = b'=' ∷ h ∷ l ∷ []; li = li; skip = false; current = c })).out
unfolding wrap dots_inside
wrap-Keeps_encoded li c h l lf cr eh el = elim (Bool-cases (li == 75)) [
  | inl e ↦ rw (lf, cr, e) (λ y k j. rw (eh, el, j) refl, λ y. refl)
  | inr e ↦ rw (lf, cr, e) (λ y k j. rw (eh, el, j) refl, λ y. refl)
]

byte_round-Keeps :
    (li c : ℕ) (rest : Bytes)
    → (c == LF) ≡ false
    → (c == CR) ≡ false
    → (c == b'.' && starts_crlf rest) ≡ false
    → c < 128
    → (out : Bytes) × (li' : ℕ) × (qp_loop false li (c ∷ rest)
        ≡ prepend out (qp_loop false li' rest))
      × Keeps c out
byte_round-Keeps li c rest lf cr dot small = elim (Bool-cases (is_allowed c)) [
  | inl e ↦
      let r : Round = record { out = c ∷ []; li = li + 1; skip = false; current = c } in
      (
        (wrap r).out,
        (wrap r).li,
        qp_loop-cons li c rest (qp_round-wrap li c rest lf cr dot (round-allowed li c rest lf cr e))
            ∙ ap (λ b. prepend (wrap r).out (qp_loop b (wrap r).li rest)) (wrap-skip r),
        wrap-Keeps_allowed (li + 1) c lf cr,
      )
  | inr e ↦
      let r : Round = record {
        out = b'=' ∷ hex_digit (c / 16) ∷ hex_digit (c % 16) ∷ [];
        li = li + 3;
        skip = false;
        current = c;
      } in
      (
        (wrap r).out,
        (wrap r).li,
        qp_loop-cons li c rest
              (qp_round-wrap li c rest lf cr dot (round-encoded li c rest lf cr e small))
            ∙ ap (λ b. prepend (wrap r).out (qp_loop b (wrap r).li rest)) (wrap-skip r),
        wrap-Keeps_encoded (li + 3) c (hex_digit (c / 16)) (hex_digit (c % 16)) lf cr
            (hex_digit-inside (c / 16)) (hex_digit-inside (c % 16)),
      )
]

prepend-some :
    (front : Bytes) (o : Option Bytes) (out : Bytes)
    → prepend front o ≡ some out
    → (rest : Bytes) × (o ≡ some rest) × (front ++ rest ≡ out)
prepend-some front none out e = cc e
prepend-some front (some rest) out e = (rest, refl, cc e)

abbrev Inside : Bytes → Bytes → Type 0
Inside text out = (dots_inside out ≡ true) × (starts_word text ≡ true → starts_other out ≡ true)

abbrev Sends : ℕ → Bytes → Type 0
Sends li text = (out : Bytes) → qp_loop false li text ≡ some out → Inside text out

byte-Inside :
    (li c : ℕ) (rest : Bytes)
    → (c == LF) ≡ false
    → (c == CR) ≡ false
    → (c == b'.' && starts_crlf rest) ≡ false
    → c < 128
    → ((c == b'.') ≡ true → starts_word rest ≡ true)
    → ((li' : ℕ) → Sends li' rest)
    → Sends li (c ∷ rest)
byte-Inside li c rest lf cr dot small word ih out e =
    let (front, li', f, k) = byte_round-Keeps li c rest lf cr dot small in
    let (back, g, same) = prepend-some front (qp_loop false li' rest) out (sym f ∙ e) in
    let (d, w) = ih li' back g in rw (sym same) (k.0 back (λ h. w (word h)) d, λ h. k.1 back)

line_end-Inside :
    (li c li' : ℕ) (rest after : Bytes)
    → starts_word (c ∷ rest) ≡ false
    → qp_loop false li (c ∷ rest) ≡ prepend crlf (qp_loop false li' after)
    → Sends li' after
    → Sends li (c ∷ rest)
unfolding dots_inside
line_end-Inside li c li' rest after no_word f ih out e =
    let (back, g, same) = prepend-some crlf (qp_loop false li' after) out (sym f ∙ e) in
    let (d, w) = ih back g in rw (sym same) (d, λ h. cc (rw no_word at h))

ends_no_line-parts :
    (c : ℕ) (rest : Bytes)
    → ends_no_line (c ∷ rest) ≡ true
    → ((c == b'.') ≡ true → starts_word rest ≡ true) × (ends_no_line rest ≡ true)
unfolding ends_no_line
ends_no_line-parts c rest h = (λ e. ground (arith, h, e), ground (arith, h))

loop-Inside :
    (li : ℕ) (text : Bytes) → is_clean text ≡ true → ends_no_line text ≡ true → Sends li text
unfolding qp_loop dots_inside
loop-Inside li [] h k = λ out e. let same : [] ≡ out = cc e in rw (sym same) (refl, λ w. cc w)
loop-Inside li (c ∷ []) h k =
    let (small, ends, dot, more) = is_clean-parts c [] h in
    let (word, more_words) = ends_no_line-parts c [] k in
    elim (Bool-cases (c == LF)) [
      | inl lf ↦
          line_end-Inside li c 0 [] [] (ground (arith, lf))
            (qp_loop-cons li c [] (round_lf li c [] lf)) (loop-Inside 0 [] more more_words)
      | inr lf ↦ elim (Bool-cases (c == CR)) [
        | inr cr ↦
            byte-Inside li c [] lf cr dot small word (λ li'. loop-Inside li' [] more more_words)
        | inl cr ↦ let no_end : false ≡ true = ends cr in cc no_end
      ]
    ]
loop-Inside li (c ∷ d ∷ rest) h k =
    let (small, ends, dot, more) = is_clean-parts c (d ∷ rest) h in
    let (word, more_words) = ends_no_line-parts c (d ∷ rest) k in
    elim (Bool-cases (c == LF)) [
      | inl lf ↦
          line_end-Inside li c 0 (d ∷ rest) (d ∷ rest) (ground (arith, lf))
            (qp_loop-cons li c (d ∷ rest) (round_lf li c (d ∷ rest) lf))
            (loop-Inside 0 (d ∷ rest) more more_words)
      | inr lf ↦ elim (Bool-cases (c == CR)) [
        | inr cr ↦
            byte-Inside li c (d ∷ rest) lf cr dot small word
              (λ li'. loop-Inside li' (d ∷ rest) more more_words)
        | inl cr ↦
            line_end-Inside li c 0 (d ∷ rest) rest (ground (arith, cr))
              (qp_loop-cons li c (d ∷ rest) (round_crlf li c (d ∷ rest) cr (ends cr)))
              (loop-Inside 0 rest (is_clean-parts d rest more).3
                (ends_no_line-parts d rest more_words).1)
      ]
    ]

-- Clean text in which no dot ends a line is sent with every dot inside a line.
pub smtp_qp_write-inside :
    (text out : Bytes)
    → is_clean text ≡ true
    → ends_no_line text ≡ true
    → smtp_qp_write text ≡ some out
    → dots_inside out ≡ true
unfolding smtp_qp_write
smtp_qp_write-inside text out h k e = (loop-Inside 0 text h k out e).0

starts_other-append : (a b : Bytes) → starts_other a ≡ true → starts_other (a ++ b) ≡ true
starts_other-append [] b h = cc h
starts_other-append (c ∷ a) b h = h

pub dots_inside-append :
    (a b : Bytes) → dots_inside a ≡ true → dots_inside b ≡ true → dots_inside (a ++ b) ≡ true
unfolding dots_inside
dots_inside-append [] b h k = k
dots_inside-append (c ∷ a) b h k =
    ground (arith, h, dots_inside-append a b, starts_other-append a b, k)

abbrev pub end_mark : Bytes
end_mark = codes "\r\n.\r\n"

no_end_mark :
    (c : ℕ) (before rest : Bytes)
    → dots_inside (c ∷ before) ≡ true
    → is_prefix end_mark (c ∷ (before ++ (end_mark ++ rest))) ≡ false
unfolding is_prefix dots_inside
no_end_mark c [] rest h = ground arith
no_end_mark c (d ∷ []) rest h = ground arith
no_end_mark c (d ∷ e ∷ []) rest h = ground (arith, h)
no_end_mark c (d ∷ e ∷ f ∷ before) rest h = ground (arith, h)

dots_inside-Misses :
    (text rest : Bytes) → dots_inside text ≡ true → Misses end_mark text (end_mark ++ rest)
unfolding dots_inside
dots_inside-Misses [] rest h = tt
dots_inside-Misses (c ∷ text) rest h =
    (no_end_mark c text rest h, dots_inside-Misses text rest (ground (arith, h)))

-- The first mark of the end of the data is the one behind the text.
pub find-end_mark :
    (text rest : Bytes)
    → dots_inside text ≡ true
    → find end_mark (text ++ (end_mark ++ rest)) ≡ some (length text)
find-end_mark text rest h = find-Misses end_mark text rest (dots_inside-Misses text rest h)
