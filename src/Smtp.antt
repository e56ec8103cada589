-- ===== src/Smtp.antt =====
-- src/lib/smtp_socket_util.c. A socket is the bytes that will arrive on it and the bytes written
-- to it. `char` is signed, as gcc has it on x86: a byte from 128 on is negative as a `char`.
pub mod Replies
pub mod Rounds
pub mod Decode
pub mod Dots
pub mod Framed
pub mod Lines
pub mod Loss
mod Tests
use sntools.Base.{
  ℕ, ◌+◌, ◌-◌, ◌/◌, ◌%◌, Bool, true, false, ◌&&◌, ◌||◌, Option, none, some, List, [], ◌∷◌, ◌++◌,
  ltb, leb, ◌==◌, if◌then◌else◌, length, ℤ, pos, negsuc, Bytes, codes,
}

abbrev pub CR : ℕ
CR = 13

abbrev pub LF : ℕ
LF = 10

abbrev pub crlf : Bytes
crlf = CR ∷ LF ∷ []

-- What is read is the status, and the rest of the stream. An end of the stream is `n < 1`.
pub record Reply : Type 0 where
  pub status : ℤ
  pub response : Bytes
  pub unread : Bytes

abbrev pub starts_positive : Bytes → Bool
starts_positive [] = false
starts_positive (c ∷ _) = c == b'2' || c == b'3'

-- The loop of `smtp_read`; `response` holds the first 254 bytes of the line. The end of the list is the
-- end of the stream: that `read` blocks while a peer is silent is not modelled.
unfoldable pub read_loop : (response stream : Bytes) → Reply
read_loop response [] = record { status = negsuc 0; response = response; unread = [] }
read_loop response (c ∷ stream) =
    let rest =
      read_loop (if ltb (length response) 254 then response ++ c ∷ [] else response) stream in
    if c == LF
    then record {
      status = if starts_positive response then pos 0 else negsuc 0;
      response = response;
      unread = stream;
    }
    else rest

unfoldable pub smtp_read : Bytes → Reply
unfolding read_loop
smtp_read stream = read_loop [] stream

-- `smtp_write`: the bytes written.
unfoldable pub smtp_write : Bytes → Bytes
smtp_write (c ∷ d ∷ rest) =
    if c == b'.' && (d == CR || d == LF) then b'.' ∷ (c ∷ d ∷ rest) else c ∷ d ∷ rest
smtp_write text = text

-- The bytes that `smtp_qp_write` sends as they are.
unfoldable pub is_allowed : ℕ → Bool
is_allowed c = (leb 32 c && leb c 60) || (leb 62 c && leb c 126)

unfoldable pub hex_digit : ℕ → ℕ
hex_digit d = if ltb d 10 then b'0' + d else b'A' + (d - 10)

-- `sprintf(tmp, "=%02X", data[i])`: from 128 on the number is negative and takes eight digits,
-- more than `tmp[4]` holds (`none`).
unfoldable pub encode : ℕ → Option Bytes
encode c = if ltb c 128 then some (b'=' ∷ hex_digit (c / 16) ∷ hex_digit (c % 16) ∷ []) else none

abbrev pub head_is : ℕ → Bytes → Bool
head_is b [] = false
head_is b (c ∷ _) = c == b

abbrev pub starts_crlf : Bytes → Bool
starts_crlf [] = false
starts_crlf (c ∷ rest) = c == CR && head_is LF rest

-- `data[i]`, the terminating NUL behind the last byte
abbrev pub head_byte : Bytes → ℕ
head_byte [] = 0
head_byte (c ∷ _) = c

-- What the if-chain of one round does: the bytes written, `li`, whether `i` was incremented, and
-- `data[i]` after that.
pub record Round : Type 0 where
  pub out : Bytes
  pub li : ℕ
  pub skip : Bool
  pub current : ℕ

unfoldable pub round : ℕ → ℕ → Bytes → Option Round
round li c rest =
    if c == LF
    then some (record { out = crlf; li = li; skip = false; current = c })
    else if c == CR && head_is LF rest
    then some (record { out = crlf; li = li; skip = true; current = LF })
    else if c == CR
    then some (record { out = crlf; li = li; skip = true; current = head_byte rest })
    else if is_allowed c
    then some (record { out = c ∷ []; li = li + 1; skip = false; current = c })
    else elim (encode c) [
      | none ↦ none
      | some bytes ↦ some (record { out = bytes; li = li + 3; skip = false; current = c })
    ]

-- The end of a round: a new line, or a soft line break.
unfoldable pub wrap : Round → Round
wrap r =
    if r.current == CR || r.current == LF
    then record r { li = 0 }
    else if r.li == 75
    then record r { out = r.out ++ b'=' ∷ crlf; li = 0 }
    else r

-- One round of the `for` loop, the dot in front included.
unfoldable pub qp_round : ℕ → ℕ → Bytes → Option Round
qp_round li c rest =
    if li == 0 && c == b'.' && starts_crlf rest
    then elim (round (li + 1) c rest) [
      | none ↦ none
      | some r ↦ some (record (wrap r) { out = b'.' ∷ (wrap r).out })
    ]
    else elim (round li c rest) [ none ↦ none | some r ↦ some (wrap r) ]

abbrev pub prepend : Bytes → Option Bytes → Option Bytes
prepend out none = none
prepend out (some rest) = some (out ++ rest)

-- The loop from `data[i]` on; the flag says that the last round has incremented `i`. The result is
-- all that is written, `none` if the buffer `tmp` overflows.
unfoldable pub qp_loop : Bool → ℕ → Bytes → Option Bytes
qp_loop skip li [] = some []
qp_loop true li (c ∷ rest) = qp_loop false li rest
qp_loop false li (c ∷ rest) = elim (qp_round li c rest) [
  | none ↦ none
  | some r ↦ prepend r.out (qp_loop r.skip r.li rest)
]

unfoldable pub smtp_qp_write : Bytes → Option Bytes
unfolding qp_loop
smtp_qp_write text = qp_loop false 0 text
