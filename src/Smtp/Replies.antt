-- ===== src/Smtp/Replies.antt =====
-- `smtp_read` takes exactly one line of the stream and judges it by its first byte.
use sntools.Base.{
  ℕ, ◌≤◌, ◌≡◌, ◌≢◌, refl, [], ◌∷◌, ◌++◌, arith, ltb, if◌then◌else◌, length, length-append, inl, inr,
  Bool-cases, pos, negsuc, Bytes, All,
}
use sntools.Smtp.{LF, Reply, starts_positive, read_loop, smtp_read}

abbrev pub LacksLf : Bytes → Type 0
LacksLf = All (λ c. c ≢ LF)

-- What `smtp_read` returns for a reply line, given what it has stored of it.
abbrev pub Judged : Bytes → Bytes → Reply → Type 0
Judged response rest r =
    (r.status ≡ (if starts_positive response then pos 0 else negsuc 0)) × (r.unread ≡ rest)

read_loop-Judged :
    (first : ℕ) (response line rest : Bytes)
    → LacksLf line
    → Judged (first ∷ response) rest (read_loop (first ∷ response) (line ++ LF ∷ rest))
unfolding read_loop
read_loop-Judged first response [] rest lacks = (refl, refl)
read_loop-Judged first response (c ∷ line) rest (n, lacks) =
    elim (Bool-cases (ltb (length (first ∷ response)) 254)) [
      | inl e ↦ rw e (ground (arith, read_loop-Judged first (response ++ c ∷ []) line rest lacks))
      | inr e ↦ rw e (ground (arith, read_loop-Judged first response line rest lacks))
    ]

-- A reply line, its LF and what follows: `smtp_read` returns 0 if the line begins with 2 or 3 and
-- -1 if not (the empty line too), and leaves exactly what follows the LF.
pub smtp_read_line :
    (line rest : Bytes) → LacksLf line → Judged line rest (smtp_read (line ++ LF ∷ rest))
unfolding smtp_read read_loop
smtp_read_line [] rest lacks = (refl, refl)
smtp_read_line (c ∷ line) rest (n, lacks) = ground (arith, read_loop-Judged c [] line rest lacks)

read_loop_end :
    (response stream : Bytes)
    → LacksLf stream
    → ((read_loop response stream).status ≡ negsuc 0) × ((read_loop response stream).unread ≡ [])
unfolding read_loop
read_loop_end response [] lacks = (refl, refl)
read_loop_end response (c ∷ stream) (n, lacks) = elim (Bool-cases (ltb (length response) 254)) [
  | inl e ↦ rw e (ground (arith, read_loop_end (response ++ c ∷ []) stream lacks))
  | inr e ↦ rw e (ground (arith, read_loop_end response stream lacks))
]

-- A connection that ends before an LF gives -1, whatever has arrived.
smtp_read_end :
    (stream : Bytes)
    → LacksLf stream
    → ((smtp_read stream).status ≡ negsuc 0) × ((smtp_read stream).unread ≡ [])
unfolding smtp_read
smtp_read_end stream lacks = read_loop_end [] stream lacks

read_loop-bounded :
    (response stream : Bytes)
    → length response ≤ 254
    → length (read_loop response stream).response ≤ 254
unfolding read_loop
read_loop-bounded response [] h = h
read_loop-bounded response (c ∷ stream) h = elim (Bool-cases (ltb (length response) 254)) [
  | inl e ↦ rw e (
      ground
        (arith, length-append response (c ∷ []), read_loop-bounded (response ++ c ∷ []) stream))
  | inr e ↦ rw e (ground (arith, read_loop-bounded response stream h))
]

-- The line is stored in `response[255]` with room for its NUL, however long it is.
smtp_read-bounded : (stream : Bytes) → length (smtp_read stream).response ≤ 254
unfolding smtp_read
smtp_read-bounded stream = read_loop-bounded [] stream (omega arith)
