-- ===== src/Httpd.antt =====
-- src/lib/httpd_util.c, and the program src/httpd-exec.c around it. `none` is undefined behaviour: a
-- search or a print past a buffer that has no NUL, a write past one.
pub mod Request
pub mod Response
pub mod Sends
pub mod Delivered
pub mod Visits
mod Tests
use sntools.Base.{
  ℕ, suc, ◌+◌, Bool, true, false, ◌||◌, Option, none, some, List, [], ◌∷◌, ◌++◌, if◌then◌else◌,
  length, ltb, ◌==◌, ℤ, pos, negsuc, Bytes, codes, atoi, Opts, find,
}
use sntools.Net.{Received, bytes, error, Client, failure, is_zero, is_negative, writes}

abbrev pub buffer_size : ℕ
buffer_size = 1024

-- The C string that a chunk makes in a cleared buffer, if it has a NUL or leaves one there.
unfoldable pub text_of : Bytes → Bytes
text_of [] = []
text_of (c ∷ chunk) = let more = text_of chunk in if c == 0 then [] else c ∷ more

abbrev pub has : Bytes → Bytes → Bool
has pattern text = elim (find pattern text) [ none ↦ false | some _ ↦ true ]

-- The end of the headers.
abbrev pub is_end : Bytes → Bool
is_end chunk = has (codes "\r\n\r\n") (text_of chunk) || has (codes "\n\n") (text_of chunk)

-- The loop that reads the request: what is left to read, and whether `r < 0`. A `read` of no bytes is
-- the end of the stream.
unfoldable pub read_request : List Received → Option (List Received × Bool)
read_request [] = some ([], false)
read_request (error ∷ later) = some (later, true)
read_request (bytes [] ∷ later) = some (later, false)
read_request (bytes (c ∷ chunk) ∷ later) =
    let rest = read_request later in
    if ltb (length (text_of (c ∷ chunk))) buffer_size
    then if is_end (c ∷ chunk) then some (later, false) else rest
    else none

-- `if( writes(…) != 0 ) return -1;`, and what comes next.
abbrev pub write_or_fail : Bytes → Client → (Client → ℤ × Client) → ℤ × Client
write_or_fail line c next =
    let (status, c') = writes line c in if is_zero status then next c' else (failure, c')

abbrev pub status_line : Bytes
status_line = codes "HTTP/1.1 200 OK\r\n"

abbrev pub content_type_line : Bytes → Bytes
content_type_line content_type = codes "Content-Type: " ++ content_type ++ codes "\r\n"

abbrev pub connection_line : Bytes
connection_line = codes "Connection: close\r\n\r\n"

-- The three writes of `init_response`.
unfoldable pub write_head : Bytes → Client → ℤ × Client
write_head content_type c = write_or_fail status_line c λ c1.
    write_or_fail (content_type_line content_type) c1
      λ c2. write_or_fail connection_line c2 λ c3. (pos 0, c3)

-- `init_response`
unfoldable pub init_response : Bytes → Client → Option (ℤ × Client)
init_response content_type c = elim (read_request c.reads) [
  | none ↦ none
  | some (later, failed) ↦
      let c' : Client = record c { reads = later } in
      if failed
      then some (failure, c')
      else if ltb (length (content_type_line content_type)) buffer_size
      then some (write_head content_type c')
      else none
]

-- A command that runs: the lines that `fgets` reads of it, and `feof` behind them.
pub record Output : Type 0 where
  pub lines : List Bytes
  pub at_end : Bool

-- The loop of `respond`: once a line cannot be sent, the others are read but not sent.
unfoldable pub send_lines : (can_send : Bool) → List Bytes → Client → Client
send_lines can_send [] c = c
send_lines false (line ∷ lines) c = send_lines false lines c
send_lines true (line ∷ lines) c =
    let (status, c') = writes line c in send_lines (is_zero status) lines c'

-- `respond`; without a command (`popen` has failed) it says so.
unfoldable pub respond : (content_type : Bytes) → Option Output → Client → Option (ℤ × Client)
respond content_type command c = elim (init_response content_type c) [
  | none ↦ none
  | some (status, c1) ↦ if is_negative status then some (failure, c1) else elim command [
    | none ↦ some (pos 0, (writes (codes "Failed to execute command") c1).1)
    | some out ↦ some (if out.at_end then pos 0 else failure, send_lines true out.lines c1)
  ]
]

-- The connections in the order in which they are accepted, each with what the command does for it, and
-- those that have been answered.
pub record Service : Type 0 where
  pub waiting : List (Client × Option Output)
  pub finished : List Client

-- `handle_request` for a connection that was just accepted; `none` stays.
unfoldable pub handle_request :
    (content_type : Bytes) → (client_socket : ℤ) → Option Service → Option Service
handle_request content_type client_socket none = none
handle_request content_type client_socket (some s) = elim s.waiting [
  | [] ↦ some s
  | (c, command) ∷ later ↦ elim (respond content_type command c) [
    | none ↦ none
    | some (status, c') ↦ some (record { waiting = later; finished = s.finished ++ c' ∷ [] })
  ]
]

pub record Config : Type 0 where
  pub content_type : Bytes
  pub port : ℤ
  pub verbosity : ℕ

abbrev pub defaults : Config
defaults = record { content_type = codes "text/plain"; port = pos 8001; verbosity = 0 }

-- One option.
unfoldable pub set_option : Config → ℕ × Bytes → Config
set_option c (option, arg) =
    if option == b'c'
    then record c { content_type = arg }
    else if option == b'p'
    then record c { port = atoi arg }
    else if option == b'v'
    then record c { verbosity = suc c.verbosity }
    else c

unfoldable pub configure : Config → Opts → Config
configure c [] = c
configure c (o ∷ os) = configure (set_option c o) os
