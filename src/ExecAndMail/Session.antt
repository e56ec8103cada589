-- ===== src/ExecAndMail/Session.antt =====
-- `send_buffer` of src/exec-and-mail.c: the SMTP dialogue over one socket.
use sntools.Base.{
  Bool, true, false, Option, none, some, List, [], ◌∷◌, ◌++◌, if◌then◌else◌, take, ℤ, pos, negsuc,
  ltb_ℤ, Bytes, codes,
}
use sntools.Smtp.{smtp_read, smtp_qp_write}

-- What arrives on the socket, what was written to it, and whether it was closed.
pub record Socket : Type 0 where
  pub unread : Bytes
  pub written : Bytes
  pub closed : Bool

-- `return -1` is `failed`; `overflow` is the undefined behaviour of `smtp_qp_write`.
pub data Dialogue (A : Type 0) : Type 0 where
  ok : A → Socket → Dialogue A
  failed : Socket → Dialogue A
  overflow : Dialogue A

abbrev pub Talk : Type 0 → Type 0
Talk A = Socket → Dialogue A

abbrev pub and_then : {A B : Type 0} → Dialogue A → (A → Talk B) → Dialogue B
and_then (ok a s) f = f a s
and_then (failed s) f = failed s
and_then overflow f = overflow

infixl 5 ◌>>=◌ ◌>>◌
abbrev pub ◌>>=◌ : {A B : Type 0} → Talk A → (A → Talk B) → Talk B
m >>= f = λ s. and_then (m s) f

abbrev pub ◌>>◌ : {A B : Type 0} → Talk A → Talk B → Talk B
m >> k = m >>= λ _. k

-- `snprintf(buf, sizeof(buf), …)` into 1024 bytes, and the write of what it holds. The write is taken
-- to succeed: on a reset connection it would raise SIGPIPE, for which the program has no handler.
unfoldable pub put : Bytes → Talk (Unit {0})
put text s = ok tt (record s { written = s.written ++ take 1023 text })

abbrev pub is_zero : ℤ → Bool
is_zero (pos n) = if ltb_ℤ (pos 0) (pos n) then false else true
is_zero (negsuc _) = false

-- `if( smtp_read(socket) != 0 ) return -1;`
unfoldable pub expect : Talk (Unit {0})
expect s =
    let r = smtp_read s.unread in
    let s' : Socket = record s { unread = r.unread } in
    if is_zero r.status then ok tt s' else failed s'

-- The loop over the buffer.
unfoldable pub put_lines : List Bytes → Talk (Unit {0})
put_lines [] s = ok tt s
put_lines (line ∷ lines) s = elim (smtp_qp_write line) [
  | none ↦ overflow
  | some out ↦ put_lines lines (record s { written = s.written ++ out })
]

unfoldable pub close : Talk (Unit {0})
close s = ok tt (record s { closed = true })

-- The parameters of a mail.
pub record Envelope : Type 0 where
  pub helo_name : Bytes
  pub env_from : Bytes
  pub env_to : Bytes
  pub subject : Bytes

unfoldable pub envelope_phase : Envelope → Talk (Unit {0})
envelope_phase e = do
  expect
  put (codes "helo " ++ e.helo_name ++ codes "\r\n")
  expect
  put (codes "mail from: <" ++ e.env_from ++ codes ">\r\n")
  expect
  put (codes "rcpt to: <" ++ e.env_to ++ codes ">\r\n")
  expect
  put (codes "data\r\n")
  expect

unfoldable pub header_phase : Envelope → Talk (Unit {0})
header_phase e = do
  put (codes "Subject: " ++ e.subject ++ codes "\r\n")
  put (codes "From: <" ++ e.env_from ++ codes ">\r\n")
  put (codes "To: <" ++ e.env_to ++ codes ">\r\n")
  put (codes "Content-Transfer-Encoding: quoted-printable\r\n")
  put (codes "Content-Type: text/plain\r\n")
  put (codes "\r\n")

unfoldable pub end_phase : Talk (Unit {0})
end_phase = do put (codes "\r\n.\r\n"); expect; put (codes "quit\r\n"); expect; close

-- The dialogue on a socket that `open_socket` has returned.
unfoldable pub converse : Envelope → List Bytes → Talk (Unit {0})
converse e buffer = do envelope_phase e; header_phase e; put_lines buffer; end_phase

-- The return value, and the socket that is left.
abbrev pub reported : Dialogue (Unit {0}) → Option (ℤ × Socket)
reported (ok _ s) = some (pos 0, s)
reported (failed s) = some (negsuc 0, s)
reported overflow = none

-- With no socket `send_buffer` does nothing, and returns 0 too.
unfoldable pub send_buffer : (socket : ℤ) → Envelope → List Bytes → Socket → Option (ℤ × Socket)
send_buffer socket e buffer s =
    if ltb_ℤ (pos 0) socket then reported (converse e buffer s) else some (pos 0, s)
