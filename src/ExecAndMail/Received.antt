-- ===== src/ExecAndMail/Received.antt =====
-- What the SMTP server gets is what the command has printed, if no dots of it have to be doubled.
use sntools.Smtp.{smtp_qp_write}
use sntools.Smtp.Dots.{no_leading_dots, remove_dots}
use sntools.Smtp.Framed.{ends_no_line, dots_inside, end_mark}
use sntools.Base.{
  Option, none, find, take, codes, ◌≡◌, Bool, true, false, some, List, [], ◌∷◌, ◌++◌, ℕ, ℤ, pos,
  ltb_ℤ, Bytes, All,
}
use sntools.Smtp.Decode.{decode, with_crlf, is_clean}
use sntools.Net.{ip4, Resolver, is_negative, starts_nul}
use sntools.ExecAndMail.Transcript.{IsPositive, IsBody, with_lf, transcript}
use sntools.ExecAndMail.Mails.{Target, Attempt, Session}

-- The host's only address is of IPv4.
pub record HasAddress (r : Resolver) (host : Bytes) : Type 0 where
  pub text : Bytes
  pub named : r.getaddrinfo host ≡ (pos 0, ip4 text ∷ [])
  pub some_text : starts_nul text ≡ false
  pub address : ℕ
  pub read : r.inet_pton text ≡ some address

-- The server is reached, and accepts a mail with seven replies: the greeting, those to HELO, MAIL, RCPT
-- and DATA, that to the end of the data, and that to QUIT.
pub record Accepts (address : ℕ) (port : ℤ) (a : Attempt) : Type 0 where
  pub live : ltb_ℤ (pos 0) a.kernel.socket ≡ true
  pub answered : is_negative (a.kernel.connect address port) ≡ false
  pub greeting : Bytes
  pub helo : Bytes
  pub mail : Bytes
  pub rcpt : Bytes
  pub data_reply : Bytes
  pub over : Bytes
  pub bye : Bytes
  pub dialogue : All IsPositive (greeting ∷ helo ∷ mail ∷ rcpt ∷ data_reply ∷ over ∷ bye ∷ [])
  pub replied :
      a.replies ≡ with_lf (greeting ∷ helo ∷ mail ∷ rcpt ∷ data_reply ∷ over ∷ bye ∷ []) []

-- What a receiver decodes from the lines of a buffer.
abbrev pub canonical : List Bytes → Bytes
canonical [] = []
canonical (line ∷ lines) = with_crlf line ++ canonical lines

-- No line of what a line is sent as, soft breaks included, begins with a dot, which would have to be
-- doubled.
unfoldable pub sent_undotted : Bytes → Bool
sent_undotted line = elim (smtp_qp_write line) [ none ↦ true | some out ↦ no_leading_dots out ]

-- 7 bits, each CR before an LF, no dot at the end of a line, and none at the head of one as it is sent.
abbrev pub Clean : Bytes → Type 0
Clean line = (is_clean line ≡ true) × (ends_no_line line ≡ true) × (sent_undotted line ≡ true)

-- A body, and how it reads.
record Body (lines : List Bytes) (text : Bytes) : Type 0 where
  written : IsBody lines text
  read : (y : Bytes) → decode (text ++ y) ≡ canonical lines ++ decode y
  inside : dots_inside text ≡ true
  undotted : no_leading_dots text ≡ true

-- What follows a body, and what a server takes from there: the text up to the first end of data,
-- without the dot at the head of a line (RFC 5321, 4.5.2).
abbrev pub quit_text : Bytes
quit_text = codes "quit\r\n"

abbrev pub data_of : Bytes → Option Bytes
data_of stream = elim (find end_mark stream) [
  | none ↦ none
  | some n ↦ some (remove_dots (take n stream))
]

module _ (r : Resolver) (t : Target) (reach : HasAddress r t.smtp_host) where
  -- The session of a mail with that body.
  abbrev pub done : Bytes → Session
  done text = (pos 0, record { unread = []; written = transcript t.envelope text; closed = true })
