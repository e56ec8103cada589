-- ===== src/Httpd/Request.antt =====
-- Where the reading of a request ends.
use sntools.Base.{
  ℕ, ◌<◌, ◌≡◌, refl, ap, ◌∙◌, true, false, some, List, [], ◌∷◌, ◌++◌, ◌⊎◌, inl, inr, arith, length,
  ltb, Bytes, All, Bool-cases, Option-cases, codes, find, is_prefix, is_prefix-append, Lacks,
}
use sntools.Net.{Received, bytes, error}
use sntools.Httpd.{buffer_size, text_of, has, is_end, read_request}

-- The mark stands somewhere in the text.
abbrev pub Holds : (mark text : Bytes) → Type 0
Holds mark text = (front : Bytes) × (back : Bytes) × (text ≡ front ++ (mark ++ back))

-- The end of the headers, an empty line with CR LF or with LF, stands in the text.
abbrev pub HoldsEnd : Bytes → Type 0
HoldsEnd text = Holds (codes "\r\n\r\n") text ⊎ Holds (codes "\n\n") text

-- A chunk without a NUL that fits the 1024 bytes of the buffer with one behind it.
abbrev pub IsChunk : Bytes → Type 0
IsChunk chunk = Lacks 0 chunk × (length chunk < 1024)

-- A chunk with no end of the headers in it.
pub record IsQuiet (chunk : Bytes) : Type 0 where
  pub filled : length chunk ≡ 0 → ⊥
  pub whole : IsChunk chunk
  pub open_end : HoldsEnd chunk → ⊥

-- A chunk with the whole end of the headers in it.
pub record IsLast (chunk : Bytes) : Type 0 where
  pub whole : IsChunk chunk
  pub ends : HoldsEnd chunk

text_of-Lacks : (chunk : Bytes) → Lacks 0 chunk → text_of chunk ≡ chunk
unfolding text_of
text_of-Lacks [] h = refl
text_of-Lacks (c ∷ chunk) (e, h) = rw (e, text_of-Lacks chunk h) refl

is_prefix-split :
    (mark text : Bytes) → is_prefix mark text ≡ true → (back : Bytes) × (text ≡ mark ++ back)
unfolding is_prefix
is_prefix-split [] text h = (text, refl)
is_prefix-split (c ∷ mark) [] h = cc h
is_prefix-split (c ∷ mark) (d ∷ text) h =
    let (back, e) = is_prefix-split mark text (ground (arith, h)) in
    let same : c ≡ d = ground (arith, h) in (back, rw (e, same) refl)

has_nil : (m : ℕ) (mark : Bytes) → has (m ∷ mark) [] ≡ false
unfolding find is_prefix
has_nil m mark = refl

-- What `strstr` finds is there, and what is there it finds.
has-Holds : (mark text : Bytes) → has mark text ≡ true → Holds mark text
unfolding find
has-Holds [] text h = ([], text, refl)
has-Holds (m ∷ mark) [] h = cc (rw (has_nil m mark) at h)
has-Holds (m ∷ mark) (c ∷ text) h = elim (Bool-cases (is_prefix (m ∷ mark) (c ∷ text))) [
  | inl e ↦ let (back, same) = is_prefix-split (m ∷ mark) (c ∷ text) e in ([], back, same)
  | inr e ↦ elim (Option-cases (find (m ∷ mark) text)) [
    | inl f ↦ cc (rw (e, has, f) at h)
    | inr (n, f) ↦
        let later : has (m ∷ mark) text ≡ true = rw (has, f) refl in
        let (front, back, same) = has-Holds (m ∷ mark) text later in
        (c ∷ front, back, ap (◌∷◌ c) same)
  ]
]

Holds-has : (mark front back : Bytes) → has mark (front ++ (mark ++ back)) ≡ true
unfolding find
Holds-has [] [] [] = refl
Holds-has [] [] (c ∷ back) = refl
Holds-has (m ∷ mark) [] back =
    let found : is_prefix (m ∷ mark) (m ∷ (mark ++ back)) ≡ true =
      is_prefix-append (m ∷ mark) back in
    rw (has, found) refl
Holds-has mark (c ∷ front) back =
    elim (Bool-cases (is_prefix mark (c ∷ (front ++ (mark ++ back))))) [
      | inl e ↦ rw (e, has) refl
      | inr e ↦ elim (Option-cases (find mark (front ++ (mark ++ back)))) [
        | inl f ↦ let later = Holds-has mark front back in cc (rw (f, has) at later)
        | inr (n, f) ↦ rw (e, has, f) refl
      ]
    ]

is_end-HoldsEnd : (chunk : Bytes) → Lacks 0 chunk → is_end chunk ≡ true → HoldsEnd chunk
is_end-HoldsEnd chunk l h = elim (Bool-cases (has (codes "\r\n\r\n") chunk)) [
  | inl e ↦ inl (has-Holds (codes "\r\n\r\n") chunk e)
  | inr e ↦ inr (has-Holds (codes "\n\n") chunk (rw (text_of-Lacks chunk l, e) at h))
]

pub HoldsEnd-is_end : (chunk : Bytes) → Lacks 0 chunk → HoldsEnd chunk → is_end chunk ≡ true
HoldsEnd-is_end chunk l (inl (front, back, e)) =
    let found : has (codes "\r\n\r\n") chunk ≡ true =
      rw e (Holds-has (codes "\r\n\r\n") front back) in
    rw (text_of-Lacks chunk l, found) refl
HoldsEnd-is_end chunk l (inr (front, back, e)) =
    let found : has (codes "\n\n") chunk ≡ true = rw e (Holds-has (codes "\n\n") front back) in
    rw (text_of-Lacks chunk l, found) (ground arith)

chunk_fits : (chunk : Bytes) → IsChunk chunk → ltb (length (text_of chunk)) buffer_size ≡ true
chunk_fits chunk (l, h) = rw (text_of-Lacks chunk l) (ground (arith, h))

-- The chunks as they are received.
abbrev pub received : List Bytes → List Received → List Received
received [] rest = rest
received (chunk ∷ chunks) rest = bytes chunk ∷ received chunks rest

pub read_request-quiet :
    (chunks : List Bytes) (rest : List Received)
    → All IsQuiet chunks
    → read_request (received chunks rest) ≡ read_request rest
unfolding read_request
read_request-quiet [] rest q = refl
read_request-quiet ([] ∷ chunks) rest (q, qs) = elim (q.filled refl) [ ]
read_request-quiet ((c ∷ chunk) ∷ chunks) rest (q, qs) =
    let no_end : is_end (c ∷ chunk) ≡ false = elim (Bool-cases (is_end (c ∷ chunk))) [
      | inl e ↦ elim (q.open_end (is_end-HoldsEnd (c ∷ chunk) q.whole.0 e)) [ ]
      | inr e ↦ e
    ] in
    rw (chunk_fits (c ∷ chunk) q.whole, no_end) (read_request-quiet chunks rest qs)

read_request-IsLast :
    (chunk : Bytes) (later : List Received)
    → IsLast chunk
    → read_request (bytes chunk ∷ later) ≡ some (later, false)
unfolding read_request
read_request-IsLast [] later l = refl
read_request-IsLast (c ∷ chunk) later l =
    rw (chunk_fits (c ∷ chunk) l.whole, HoldsEnd-is_end (c ∷ chunk) l.whole.0 l.ends) refl

-- Chunks without a NUL that leave room for one in the 1024 bytes of the buffer, none of them empty and
-- none with an end of the headers in it, that is CR LF CR LF or LF LF. The request is read over all of
-- them, and up to a chunk behind them in which an end of the headers stands (the bytes behind it in that
-- chunk are dropped), or to the end of the stream, or to an error, which alone is reported. An end that
-- two chunks share is not seen.
pub read_request-until_end :
    (chunks : List Bytes) (chunk : Bytes) (later : List Received)
    → All IsQuiet chunks
    → IsLast chunk
    → (read_request (received chunks (bytes chunk ∷ later)) ≡ some (later, false))
      × (read_request (received chunks (bytes [] ∷ later)) ≡ some (later, false))
      × (read_request (received chunks (error ∷ later)) ≡ some (later, true))
unfolding read_request
read_request-until_end chunks chunk later q l = (
  read_request-quiet chunks (bytes chunk ∷ later) q ∙ read_request-IsLast chunk later l,
  read_request-quiet chunks (bytes [] ∷ later) q,
  read_request-quiet chunks (error ∷ later) q,
)
