-- ===== src/ExecAndMail/Closing.antt =====
-- Which sessions close the socket.
use sntools.Base.{
  ◌≡◌, ◌⊎◌, refl, true, false, some, List, [], ◌∷◌, ◌++◌, inl, inr, Bool-cases, Option-cases, ltb_ℤ,
  ℤ, pos, negsuc, Bytes, codes,
}
use sntools.Smtp.{smtp_read, smtp_qp_write}
use sntools.ExecAndMail.Session.{
  Socket, Dialogue, ok, failed, overflow, Talk, and_then, ◌>>◌, put, is_zero, expect, put_lines,
  close, Envelope, envelope_phase, header_phase, end_phase, converse, reported, send_buffer,
}

-- The socket is open still.
abbrev IsOpen : {A : Type 0} → Dialogue A → Type 0
IsOpen (ok _ t) = t.closed ≡ false
IsOpen (failed t) = t.closed ≡ false
IsOpen overflow = Unit

-- The socket was closed exactly if the dialogue came to its end.
abbrev IsEnded : {A : Type 0} → Dialogue A → Type 0
IsEnded (ok _ t) = t.closed ≡ true
IsEnded (failed t) = t.closed ≡ false
IsEnded overflow = Unit

module _ {A B : Type 0} (f : A → Talk B) where
  IsOpen-bind :
      (r : Dialogue A)
      → IsOpen r
      → ((a : A) (t : Socket) → t.closed ≡ false → IsOpen (f a t))
      → IsOpen (and_then r f)
  IsOpen-bind (ok a t) h k = k a t h
  IsOpen-bind (failed t) h k = h
  IsOpen-bind overflow h k = tt

  IsEnded-bind :
      (r : Dialogue A)
      → IsOpen r
      → ((a : A) (t : Socket) → t.closed ≡ false → IsEnded (f a t))
      → IsEnded (and_then r f)
  IsEnded-bind (ok a t) h k = k a t h
  IsEnded-bind (failed t) h k = h
  IsEnded-bind overflow h k = tt

put-IsOpen : (text : Bytes) (s : Socket) → s.closed ≡ false → IsOpen (put text s)
unfolding put
put-IsOpen text s h = h

expect-IsOpen : (s : Socket) → s.closed ≡ false → IsOpen (expect s)
unfolding expect
expect-IsOpen s h = elim (Bool-cases (is_zero (smtp_read s.unread).status)) [
  | inl e ↦ rw e h
  | inr e ↦ rw e h
]

put_lines-IsOpen : (lines : List Bytes) (s : Socket) → s.closed ≡ false → IsOpen (put_lines lines s)
unfolding put_lines
put_lines-IsOpen [] s h = h
put_lines-IsOpen (line ∷ lines) s h = elim (Option-cases (smtp_qp_write line)) [
  | inl e ↦ rw (e, put_lines) tt
  | inr (out, e) ↦
      rw (e, put_lines) (put_lines-IsOpen lines (record s { written = s.written ++ out }) h)
]

-- A write and the reply to it, in front of the rest.
ask-IsOpen :
    (text : Bytes) (f : Talk (Unit {0}))
    → ((t : Socket) → t.closed ≡ false → IsOpen (f t))
    → (s : Socket) → s.closed ≡ false
    → IsOpen ((put text >> (expect >> f)) s)
ask-IsOpen text f k s h =
    IsOpen-bind (λ _. expect >> f) (put text s) (put-IsOpen text s h)
      λ _ t o. IsOpen-bind (λ _. f) (expect t) (expect-IsOpen t o) λ _. k

say-IsOpen :
    (text : Bytes) (f : Talk (Unit {0}))
    → ((t : Socket) → t.closed ≡ false → IsOpen (f t))
    → (s : Socket) → s.closed ≡ false
    → IsOpen ((put text >> f) s)
say-IsOpen text f k s h = IsOpen-bind (λ _. f) (put text s) (put-IsOpen text s h) λ _. k

envelope_phase-IsOpen : (e : Envelope) (s : Socket) → s.closed ≡ false → IsOpen (envelope_phase e s)
unfolding envelope_phase
envelope_phase-IsOpen e s h = IsOpen-bind _ (expect s) (expect-IsOpen s h) λ _. ask-IsOpen _ _ (
    ask-IsOpen _ _ (
      ask-IsOpen _ _ λ t o.
        IsOpen-bind (λ _. expect) _ (put-IsOpen (codes "data\r\n") t o) (λ _. expect-IsOpen)))

header_phase-IsOpen : (e : Envelope) (s : Socket) → s.closed ≡ false → IsOpen (header_phase e s)
unfolding header_phase
header_phase-IsOpen e =
    say-IsOpen _ _ (
      say-IsOpen _ _ (say-IsOpen _ _ (say-IsOpen _ _ (say-IsOpen _ _ (put-IsOpen (codes "\r\n"))))))

end_phase-IsEnded : (s : Socket) → s.closed ≡ false → IsEnded (end_phase s)
unfolding end_phase close
end_phase-IsEnded s h = IsEnded-bind _ _ (put-IsOpen (codes "\r\n.\r\n") s h) λ _ s1 o1.
    IsEnded-bind _ _ (expect-IsOpen s1 o1) λ _ s2 o2.
      IsEnded-bind _ _ (put-IsOpen (codes "quit\r\n") s2 o2)
        λ _ s3 o3. IsEnded-bind _ _ (expect-IsOpen s3 o3) λ _ s4 o4. refl

converse-IsEnded :
    (e : Envelope) (buffer : List Bytes) (s : Socket)
    → s.closed ≡ false
    → IsEnded (converse e buffer s)
unfolding converse
converse-IsEnded e buffer s h = IsEnded-bind _ _ (envelope_phase-IsOpen e s h) λ _ s1 o1.
    IsEnded-bind _ _ (header_phase-IsOpen e s1 o1)
      λ _ s2 o2. IsEnded-bind _ _ (put_lines-IsOpen buffer s2 o2) λ _ s3 o3. end_phase-IsEnded s3 o3

abbrev Judges : ℤ → Socket → Type 0
Judges status t =
    ((status ≡ pos 0) × (t.closed ≡ true)) ⊎ ((status ≡ negsuc 0) × (t.closed ≡ false))

reported-Judges :
    (r : Dialogue (Unit {0})) (status : ℤ) (t : Socket)
    → IsEnded r
    → reported r ≡ some (status, t)
    → Judges status t
reported-Judges (ok a s) status t h e = inl (cc, cc)
reported-Judges (failed s) status t h e = inr (cc, cc)
reported-Judges overflow status t h e = cc

-- On a socket (a positive number) a mail that fails at any reply returns -1 with the socket left
-- open, and one that returns 0 has closed it.
pub send_buffer-closes :
    (socket : ℤ) (e : Envelope) (buffer : List Bytes) (s t : Socket) (status : ℤ)
    → ltb_ℤ (pos 0) socket ≡ true
    → s.closed ≡ false
    → send_buffer socket e buffer s ≡ some (status, t)
    → ((status ≡ pos 0) × (t.closed ≡ true)) ⊎ ((status ≡ negsuc 0) × (t.closed ≡ false))
unfolding send_buffer
send_buffer-closes socket e buffer s t status live h r =
    reported-Judges (converse e buffer s) status t (converse-IsEnded e buffer s h) (rw live at r)
