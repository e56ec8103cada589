-- ===== src/Httpd/Visits.antt =====
-- The server of httpd-exec as a whole: `accept_loop` with the response as its handler.
use sntools.Base.{
  ◌≡◌, refl, ap, ◌∙◌, sym, Bool, Option, some, List, [], ◌∷◌, ◌++◌, append_assoc, append-nil,
  joined, map, arith, if◌then◌else◌, length, ℤ, Bytes, All,
}
use sntools.Net.{Received, Sent, Client, accept_loop}
use sntools.Net.Serving.{connections, serve_all, opened_and_closed, accept_loop-serve_all}
use sntools.Httpd.{read_request, content_type_line, Output, handle_request}
use sntools.Httpd.Sends.{delivered, IsWhole, IsShort}
use sntools.Httpd.Delivered.{head_texts, body_texts, respond-delivered}

-- A visit: what the client sends, what is left of it behind the request, whether that reading has
-- failed, what each `send` to it does, and what the command writes, if it starts.
pub record Visit : Type 0 where
  pub reads : List Received
  pub later : List Received
  pub failed : Bool
  pub sends : List Sent
  pub command : Option Output

pub record IsVisit (v : Visit) : Type 0 where
  pub read : read_request v.reads ≡ some (v.later, v.failed)
  pub whole : All IsWhole v.sends
  pub short : All IsShort (body_texts v.command)

abbrev pub before : Visit → Client × Option Output
before v = (record { reads = v.reads; sends = v.sends; sent = [] }, v.command)

-- What the client of a visit should get.
abbrev pub response : (content_type : Bytes) → Visit → Bytes
response content_type v =
    if v.failed
    then []
    else joined (delivered v.sends (head_texts content_type ++ body_texts v.command))

abbrev pub sent_to : Client → Bytes
sent_to c = c.sent

module _ (content_type : Bytes) (short : IsShort (content_type_line content_type)) where
  serve_all-answered :
      (sockets : List ℤ) (visits : List Visit) (finished : List Client)
      → All IsVisit visits
      → length sockets ≡ length visits
      → (clients : List Client) × (serve_all
            (handle_request content_type)
            sockets
            (some (record { waiting = map before visits; finished = finished }))
          ≡ some (record { waiting = []; finished = finished ++ clients }))
        × (map sent_to clients ≡ map (response content_type) visits)
  unfolding handle_request
  serve_all-answered [] [] finished vs e =
      ([], ap (λ f. some (record { waiting = []; finished = f })) (sym (append-nil finished)), refl)
  serve_all-answered [] (v ∷ visits) finished vs e =
      let no_room : ⊥ = omega (arith, e) in elim no_room [ ]
  serve_all-answered (s ∷ sockets) [] finished vs e =
      let no_room : ⊥ = omega (arith, e) in elim no_room [ ]
  serve_all-answered (s ∷ sockets) (v ∷ visits) finished (k, vs) e =
      let (status, c, r, got) =
        respond-delivered content_type short v.command v.reads v.later v.sends v.failed k.read
          k.whole k.short in
      let (clients, q, all) =
        serve_all-answered sockets visits (finished ++ c ∷ []) vs (omega (arith, e)) in
      (
        c ∷ clients,
        rw (handle_request, r)
            (q
              ∙ ap (λ f. some (record { waiting = []; finished = f }))
                  (append_assoc finished (c ∷ []) clients)),
        ap (λ t. t ∷ map sent_to clients) got ∙ ap (◌∷◌ (response content_type v)) all,
      )

  -- Clients whose reading ends or fails, and each `send` to whom takes the whole text or fails, are all
  -- served in the order of their connections, whatever failures of `accept` come between them. Each has
  -- got the head of the response and the lines of its command, or the message that it has not started,
  -- up to the first text that could not be sent, and nothing if the reading has failed. No client
  -- depends on another, every connection was closed before the next was accepted, and nobody waits any
  -- more. (The content type's line and the lines read from the command fit the buffer.)
  pub accept_loop-answered :
      (answers : List ℤ) (visits : List Visit)
      → All IsVisit visits
      → length (connections answers) ≡ length visits
      → (clients : List Client) × (accept_loop
            (handle_request content_type)
            answers
            (some (record { waiting = map before visits; finished = [] }), [])
          ≡ (
            some (record { waiting = []; finished = clients }),
            opened_and_closed (connections answers),
          ))
        × (map sent_to clients ≡ map (response content_type) visits)
  accept_loop-answered answers visits vs e =
      let (clients, q, all) = serve_all-answered (connections answers) visits [] vs e in
      (
        clients,
        accept_loop-serve_all (handle_request content_type) answers
              (some (record { waiting = map before visits; finished = [] })) []
            ∙ ap (λ s. (s, opened_and_closed (connections answers))) q,
        all,
      )
