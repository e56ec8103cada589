-- ===== src/Httpd/Response.antt =====
-- What the client gets.
use sntools.Base.{
  ◌<◌, ◌≡◌, refl, ap, ◌∙◌, sym, true, false, some, List, [], ◌∷◌, ◌++◌, append_assoc, append-nil,
  joined, map, arith, if◌then◌else◌, length, ltb, pos, Bytes, take,
}
use sntools.Net.{Received, Sent, refused, accepted, Client, failure, writes}
use sntools.Httpd.{
  buffer_size, read_request, status_line, content_type_line, connection_line, write_head,
  init_response, Output, send_lines, respond,
}

-- A client that takes everything that is sent.
abbrev willing : List Received → Bytes → Client
willing reads sent = record { reads = reads; sends = []; sent = sent }

send_lines-willing :
    (lines : List Bytes) (reads : List Received) (sent : Bytes)
    → send_lines true lines (willing reads sent) ≡ willing reads (sent ++ joined lines)
unfolding send_lines writes
send_lines-willing [] reads sent = rw (append-nil sent) refl
send_lines-willing (line ∷ lines) reads sent =
    send_lines-willing lines reads (sent ++ line)
    ∙ ap (willing reads) (append_assoc sent line (joined lines))

abbrev head : Bytes → Bytes
head content_type = status_line ++ content_type_line content_type ++ connection_line

init_response-willing :
    (content_type : Bytes) (reads later : List Received) (sent : Bytes)
    → read_request reads ≡ some (later, false)
    → length (content_type_line content_type) < buffer_size
    → init_response content_type (willing reads sent)
      ≡ some (pos 0, willing later (sent ++ head content_type))
unfolding init_response write_head writes
init_response-willing content_type reads later sent e h =
    let s : ltb (length (content_type_line content_type)) buffer_size ≡ true = ground (arith, h) in
    rw (e, init_response, s)
      (ap (λ x. some (pos 0, willing later x))
        (ap (λ x. x ++ connection_line)
            (append_assoc sent status_line (content_type_line content_type))
          ∙ append_assoc sent (status_line ++ content_type_line content_type) connection_line))

-- A request that is read without an error, a content type that fits the buffer and a client that takes
-- everything: the response is the head and the output of the command, complete and in order, and the
-- result is 0 exactly if the output was read to its end.
respond-willing :
    (content_type : Bytes) (out : Output) (reads later : List Received)
    → read_request reads ≡ some (later, false)
    → length (content_type_line content_type) < buffer_size
    → respond content_type (some out) (willing reads [])
      ≡ some (
        if out.at_end then pos 0 else failure,
        willing later (head content_type ++ joined out.lines),
      )
unfolding respond
respond-willing content_type out reads later e h =
    rw (init_response-willing content_type reads later [] e h, respond)
      (ap (λ c. some (if out.at_end then pos 0 else failure, c))
        (send_lines-willing out.lines later (head content_type)))

take-length : (line : Bytes) → take (length line) line ≡ line
take-length [] = refl
take-length (c ∷ line) = ap (◌∷◌ c) (take-length line)

send_lines-lost : (lines : List Bytes) (c : Client) → send_lines false lines c ≡ c
unfolding send_lines
send_lines-lost [] c = refl
send_lines-lost (line ∷ lines) c = send_lines-lost lines c

-- When the connection breaks at a line, the client has got all lines before it, and no line behind it
-- is sent, though all are read.
pub send_lines-refused :
    (reads : List Received) (sent : Bytes) (before : List Bytes) (line : Bytes)
    (behind : List Bytes) (later : List Sent)
    → send_lines true (before ++ line ∷ behind) (record {
      reads = reads;
      sends = map (λ l. accepted (length l)) before ++ refused ∷ later;
      sent = sent;
    })
      ≡ record { reads = reads; sends = later; sent = sent ++ joined before }
unfolding send_lines writes
send_lines-refused reads sent [] line behind later =
    send_lines-lost behind (record { reads = reads; sends = later; sent = sent })
    ∙ ap (λ x. record { reads = reads; sends = later; sent = x }) (sym (append-nil sent))
send_lines-refused reads sent (b ∷ before) line behind later =
    rw (send_lines, take-length b)
      (send_lines-refused reads (sent ++ b) before line behind later
        ∙ ap (λ x. record { reads = reads; sends = later; sent = x })
            (append_assoc sent b (joined before)))
