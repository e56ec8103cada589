-- ===== src/Httpd/Tests.antt =====
-- A request in two chunks, its response, and the theorems at them.
use sntools.Base.{
  inl, ◌≡◌, refl, true, false, some, List, [], ◌∷◌, arith, pos, Bytes, codes, find, is_prefix, atoi,
  contains, contains-Lacks, digits,
}
use sntools.Net.{Received, bytes, error, refused, accepted, failure}
use sntools.Httpd.{text_of, read_request, Output, defaults, set_option, configure}
use sntools.Httpd.Request.{
  IsChunk, IsQuiet, HoldsEnd-is_end, IsLast, received, read_request-until_end,
}
use sntools.Base.{map}
use sntools.Httpd.{handle_request}
use sntools.Httpd.Visits.{Visit, IsVisit, before, response, sent_to, accept_loop-answered}
use sntools.Net.{Client, accept_loop}
use sntools.Net.Serving.{opened_and_closed}

abbrev first_chunk : Bytes
first_chunk = codes "GET / HTTP/1.1\r\n"

abbrev last_chunk : Bytes
last_chunk = codes "Host: h\r\n\r\n"

abbrev requests : List Received
requests = bytes first_chunk ∷ bytes last_chunk ∷ []

abbrev ls : Output
ls = record { lines = codes "a\n" ∷ codes "b\n" ∷ []; at_end = true }

read_request_runs : read_request requests ≡ some ([], false)
unfolding read_request text_of find is_prefix
read_request_runs = refl

-- An end of the headers in two reads is not seen: the loop reads on.
read_request_split :
    read_request (bytes (codes "GET /\r\n") ∷ bytes (codes "\r\n") ∷ error ∷ []) ≡ some ([], true)
unfolding read_request text_of find is_prefix
read_request_split = refl

first_chunk-IsChunk : IsChunk first_chunk
unfolding contains
first_chunk-IsChunk = (contains-Lacks 0 first_chunk refl, omega arith)

first_chunk-IsQuiet : IsQuiet first_chunk
unfolding text_of find is_prefix
first_chunk-IsQuiet = record {
  filled = λ h. cc h;
  whole = first_chunk-IsChunk;
  open_end = λ h. cc (HoldsEnd-is_end first_chunk first_chunk-IsChunk.0 h);
}

last_chunk-IsLast : IsLast last_chunk
unfolding contains
last_chunk-IsLast = record {
  whole = (contains-Lacks 0 last_chunk refl, omega arith);
  ends = inl (codes "Host: h", [], refl);
}

read_request-until_end_example :
    (read_request (received (first_chunk ∷ []) (bytes last_chunk ∷ error ∷ []))
      ≡ some (error ∷ [], false))
    × (read_request (received (first_chunk ∷ []) (bytes [] ∷ error ∷ []))
        ≡ some (error ∷ [], false))
    × (read_request (received (first_chunk ∷ []) (error ∷ error ∷ [])) ≡ some (error ∷ [], true))
read_request-until_end_example =
    read_request-until_end (first_chunk ∷ []) last_chunk (error ∷ []) (first_chunk-IsQuiet, tt)
      last_chunk-IsLast

configure_sample :
    configure defaults ((b'p', codes "80") ∷ (b'v', []) ∷ [])
    ≡ record defaults { port = pos 80; verbosity = 1 }
unfolding configure set_option atoi digits
configure_sample = refl

-- A client that takes everything, and one that goes away behind the first line of the command.
abbrev visit : Visit
visit = record { reads = requests; later = []; failed = false; sends = []; command = some ls }

abbrev broken_visit : Visit
broken_visit = record visit {
  sends = accepted 1024 ∷ accepted 1024 ∷ accepted 1024 ∷ accepted 1024 ∷ refused ∷ [];
}

visit-IsVisit : IsVisit visit
visit-IsVisit = record {
  read = read_request_runs;
  whole = tt;
  short = (omega arith, (omega arith, tt));
}

broken_visit-IsVisit : IsVisit broken_visit
broken_visit-IsVisit = record {
  read = read_request_runs;
  whole = (omega arith, (omega arith, (omega arith, (omega arith, (tt, tt)))));
  short = (omega arith, (omega arith, tt));
}

broken_response :
    response (codes "text/plain") broken_visit
    ≡ codes "HTTP/1.1 200 OK\r\nContent-Type: text/plain\r\nConnection: close\r\n\r\na\n"
broken_response = refl

accept_loop-answered_example :
    (clients : List Client) × (accept_loop
        (handle_request (codes "text/plain"))
        (pos 7 ∷ failure ∷ pos 8 ∷ [])
        (some (record { waiting = map before (broken_visit ∷ visit ∷ []); finished = [] }), [])
      ≡ (
        some (record { waiting = []; finished = clients }),
        opened_and_closed (pos 7 ∷ pos 8 ∷ []),
      ))
    × (map sent_to clients ≡ map (response (codes "text/plain")) (broken_visit ∷ visit ∷ []))
accept_loop-answered_example =
    accept_loop-answered (codes "text/plain") (omega arith) (pos 7 ∷ failure ∷ pos 8 ∷ [])
      (broken_visit ∷ visit ∷ []) (broken_visit-IsVisit, (visit-IsVisit, tt)) refl
