-- ===== src/ExecAndMail/Transcript.antt =====
-- What a mail session writes.
use sntools.Base.{
  ◌≡◌, refl, append-nil, ap, ◌∙◌, true, false, some, List, [], ◌∷◌, ◌++◌, append_assoc, ltb_ℤ, take,
  ℤ, pos, Bytes, codes, All,
}
use sntools.Smtp.{LF, smtp_qp_write, starts_positive}
use sntools.Smtp.Replies.{LacksLf, smtp_read_line}
use sntools.ExecAndMail.Session.{
  Socket, ok, put, expect, put_lines, close, Envelope, envelope_phase, header_phase, end_phase,
  converse, send_buffer,
}

-- A reply line that `smtp_read` accepts.
pub record IsPositive (line : Bytes) : Type 0 where
  pub lacks : LacksLf line
  pub positive : starts_positive line ≡ true

abbrev socket_at : Bytes → Bytes → Socket
socket_at unread written = record { unread = unread; written = written; closed = false }

module _ (written : Bytes) where
  expect-ok :
      (line rest : Bytes)
      → IsPositive line
      → expect (socket_at (line ++ LF ∷ rest) written) ≡ ok tt (socket_at rest written)
  unfolding expect
  expect-ok line rest p =
      let (status, unread) = smtp_read_line line rest p.lacks in rw (status, p.positive, unread)

  put-ok :
      (text unread : Bytes)
      → put text (socket_at unread written) ≡ ok tt (socket_at unread (written ++ take 1023 text))
  unfolding put
  put-ok text unread = refl

-- The body: the lines in quoted-printable, none of which overflows.
pub data IsBody : List Bytes → Bytes → Type 0 where
  nil : IsBody [] []
  cons :
      {line out rest : Bytes} {lines : List Bytes}
      → smtp_qp_write line ≡ some out
      → IsBody lines rest
      → IsBody (line ∷ lines) (out ++ rest)

put_lines-IsBody :
    {lines : List Bytes} {text : Bytes} (unread written : Bytes)
    → IsBody lines text
    → put_lines lines (socket_at unread written) ≡ ok tt (socket_at unread (written ++ text))
unfolding put_lines
put_lines-IsBody unread written nil = rw (append-nil written)
put_lines-IsBody unread written (cons {out} {rest} e b) =
    rw (e, put_lines)
      (put_lines-IsBody unread (written ++ out) b
        ∙ ap (λ w. ok tt (socket_at unread w)) (append_assoc written out rest))

-- The commands as `snprintf` leaves them in 1024 bytes.
abbrev cut : Bytes → Bytes
cut = take 1023

-- All that a successful session writes, in order.
unfoldable pub transcript : Envelope → Bytes → Bytes
transcript e text =
    cut (codes "helo " ++ e.helo_name ++ codes "\r\n")
    ++ cut (codes "mail from: <" ++ e.env_from ++ codes ">\r\n")
    ++ cut (codes "rcpt to: <" ++ e.env_to ++ codes ">\r\n")
    ++ codes "data\r\n"
    ++ cut (codes "Subject: " ++ e.subject ++ codes "\r\n")
    ++ cut (codes "From: <" ++ e.env_from ++ codes ">\r\n")
    ++ cut (codes "To: <" ++ e.env_to ++ codes ">\r\n")
    ++ codes "Content-Transfer-Encoding: quoted-printable\r\n"
    ++ codes "Content-Type: text/plain\r\n"
    ++ codes "\r\n"
    ++ text
    ++ codes "\r\n.\r\nquit\r\n"

-- The seven replies of a session: greeting, HELO, MAIL, RCPT, DATA, end of data, QUIT.
abbrev pub with_lf : List Bytes → Bytes → Bytes
with_lf [] rest = rest
with_lf (r ∷ rs) rest = r ++ LF ∷ with_lf rs rest

envelope_phase-ok :
    (e : Envelope) (greeting helo mail rcpt start rest : Bytes)
    → All IsPositive (greeting ∷ helo ∷ mail ∷ rcpt ∷ start ∷ [])
    → envelope_phase e (socket_at (with_lf (greeting ∷ helo ∷ mail ∷ rcpt ∷ start ∷ []) rest) [])
      ≡ ok tt (
          socket_at rest (
            ((cut (codes "helo " ++ e.helo_name ++ codes "\r\n")
                ++ cut (codes "mail from: <" ++ e.env_from ++ codes ">\r\n"))
              ++ cut (codes "rcpt to: <" ++ e.env_to ++ codes ">\r\n"))
            ++ codes "data\r\n"))
unfolding envelope_phase put
envelope_phase-ok e greeting helo mail rcpt start rest (p0, (p1, (p2, (p3, (p4, _))))) =
    let w1 = cut (codes "helo " ++ e.helo_name ++ codes "\r\n") in
    let w2 = w1 ++ cut (codes "mail from: <" ++ e.env_from ++ codes ">\r\n") in
    let w3 = w2 ++ cut (codes "rcpt to: <" ++ e.env_to ++ codes ">\r\n") in
    let w4 = w3 ++ codes "data\r\n" in
    rw (
      expect-ok [] greeting (with_lf (helo ∷ mail ∷ rcpt ∷ start ∷ []) rest) p0,
      expect-ok w1 helo (with_lf (mail ∷ rcpt ∷ start ∷ []) rest) p1,
      expect-ok w2 mail (with_lf (rcpt ∷ start ∷ []) rest) p2,
      expect-ok w3 rcpt (with_lf (start ∷ []) rest) p3,
      expect-ok w4 start rest p4,
    )

header_phase-ok :
    (e : Envelope) (unread written : Bytes)
    → header_phase e (socket_at unread written)
      ≡ ok tt (
          socket_at unread (
            (((((written ++ cut (codes "Subject: " ++ e.subject ++ codes "\r\n"))
                    ++ cut (codes "From: <" ++ e.env_from ++ codes ">\r\n"))
                  ++ cut (codes "To: <" ++ e.env_to ++ codes ">\r\n"))
                ++ codes "Content-Transfer-Encoding: quoted-printable\r\n")
              ++ codes "Content-Type: text/plain\r\n")
            ++ codes "\r\n"))
unfolding header_phase put
header_phase-ok e unread written = refl

end_phase-ok :
    (over bye rest written : Bytes)
    → IsPositive over
    → IsPositive bye
    → end_phase (socket_at (with_lf (over ∷ bye ∷ []) rest) written)
      ≡ ok tt (record {
        unread = rest;
        written = (written ++ codes "\r\n.\r\n") ++ codes "quit\r\n";
        closed = true;
      })
unfolding end_phase put close
end_phase-ok over bye rest written p q = rw (
  expect-ok (written ++ codes "\r\n.\r\n") over (with_lf (bye ∷ []) rest) p,
  expect-ok ((written ++ codes "\r\n.\r\n") ++ codes "quit\r\n") bye rest q,
)

-- A server that accepts the mail (seven positive replies: greeting, HELO, MAIL, RCPT, DATA, end of
-- data, QUIT) gets the whole transcript, with the buffer in quoted-printable as the body. The session
-- returns 0, closes the socket and leaves unread only what follows the last reply.
pub send_buffer-transcript :
    (e : Envelope) (greeting helo mail rcpt start over bye rest : Bytes) (socket : ℤ)
    (lines : List Bytes) (text : Bytes)
    → All IsPositive (greeting ∷ helo ∷ mail ∷ rcpt ∷ start ∷ [])
    → IsPositive over
    → IsPositive bye
    → ltb_ℤ (pos 0) socket ≡ true
    → IsBody lines text
    → send_buffer socket e lines (record {
      unread = with_lf (greeting ∷ helo ∷ mail ∷ rcpt ∷ start ∷ over ∷ bye ∷ []) rest;
      written = [];
      closed = false;
    })
      ≡ some (pos 0, record { unread = rest; written = transcript e text; closed = true })
unfolding send_buffer converse transcript
send_buffer-transcript e greeting helo mail rcpt start over bye rest socket lines text ps p q live
      b =
    rw
      (
        live,
        envelope_phase-ok e greeting helo mail rcpt start (with_lf (over ∷ bye ∷ []) rest) ps,
        header_phase-ok e (with_lf (over ∷ bye ∷ []) rest) _,
        put_lines-IsBody (with_lf (over ∷ bye ∷ []) rest) _ b,
        end_phase-ok over bye rest _ p q,
      )
      (simp append_assoc)
