-- ===== src/Httpd/Delivered.antt =====
-- What a client gets whose connection may break at any write.
use sntools.Base.{
  ◌≡◌, refl, ap, ◌∙◌, sym, true, false, Bool, Option, none, some, List, [], ◌∷◌, ◌++◌, joined,
  joined-append, arith, if◌then◌else◌, inl, inr, length, ltb, ℤ, pos, Bytes, codes, All,
}
use sntools.Net.{Received, Sent, Client, failure, writes}
use sntools.Httpd.{
  buffer_size, read_request, status_line, content_type_line, connection_line, write_head,
  init_response, Output, send_lines, respond,
}
use sntools.Httpd.Sends.{
  delivered, IsWhole, IsShort, with_sends, send_all, Arrived, send_lines-delivered,
  send_all-SendsAll, writes-delivered,
}

-- All that `respond` writes for a client that takes it.
abbrev pub head_texts : Bytes → List Bytes
head_texts content_type = status_line ∷ content_type_line content_type ∷ connection_line ∷ []

abbrev pub body_texts : Option Output → List Bytes
body_texts none = codes "Failed to execute command" ∷ []
body_texts (some out) = out.lines

module _ (content_type : Bytes) (short : IsShort (content_type_line content_type)) where
  head_texts-IsShort : All IsShort (head_texts content_type)
  head_texts-IsShort = (omega arith, (short, (omega arith, tt)))

  init_response-SendsAll :
      (reads later : List Received) (sends : List Sent)
      → read_request reads ≡ some (later, false)
      → init_response content_type (with_sends reads sends [])
        ≡ some (send_all later (head_texts content_type) (with_sends later sends []))
  unfolding init_response write_head
  init_response-SendsAll reads later sends e =
      let s : ltb (length (content_type_line content_type)) buffer_size ≡ true =
        ground (arith, short) in
      rw (e, init_response, s) refl

  -- What was sent in front and what is sent now are what is delivered of both.
  joined-delivered :
      (reads : List Received) (texts : List Bytes) (sends later : List Sent)
      → Arrived reads (head_texts content_type) sends later
      → joined (head_texts content_type) ++ joined (delivered later texts)
        ≡ joined (delivered sends (head_texts content_type ++ texts))
  joined-delivered reads texts sends later a =
      sym (joined-append (head_texts content_type) (delivered later texts))
      ∙ ap joined (sym (a.goes_on texts))

  body-delivered :
      (command : Option Output) (reads : List Received) (sends later : List Sent) (c0 : Client)
      → All IsShort (body_texts command)
      → Arrived reads (head_texts content_type) sends later
      → init_response content_type c0
        ≡ some (pos 0, with_sends reads later (joined (head_texts content_type)))
      → (status : ℤ) × (c : Client) × (respond content_type command c0 ≡ some (status, c))
        × (c.sent ≡ joined (delivered sends (head_texts content_type ++ body_texts command)))
  unfolding respond
  body-delivered none reads sends later c0 (s, _) a e =
      let before = joined (head_texts content_type) in
      (
        pos 0,
        (writes (codes "Failed to execute command") (with_sends reads later before)).1,
        rw (e, respond) refl,
        writes-delivered reads (codes "Failed to execute command") later before a.whole_later s
            ∙ joined-delivered reads (codes "Failed to execute command" ∷ []) sends later a,
      )
  body-delivered (some out) reads sends later c0 s a e =
      let before = joined (head_texts content_type) in
      (
        if out.at_end then pos 0 else failure,
        send_lines true out.lines (with_sends reads later before),
        rw (e, respond) refl,
        send_lines-delivered reads out.lines later before a.whole_later s
            ∙ joined-delivered reads out.lines sends later a,
      )

  -- What a client gets whose `send`s may fail.
  pub respond-delivered :
      (command : Option Output) (reads later : List Received) (sends : List Sent) (failed : Bool)
      → read_request reads ≡ some (later, failed)
      → All IsWhole sends
      → All IsShort (body_texts command)
      → (status : ℤ) × (c : Client) × (respond content_type command
            (record { reads = reads; sends = sends; sent = [] })
          ≡ some (status, c))
        × (c.sent ≡ (
            if failed
            then []
            else joined (delivered sends (head_texts content_type ++ body_texts command))))
  unfolding respond init_response
  respond-delivered command reads later sends true e w s =
      (failure, with_sends later sends [], rw (e, respond) refl, refl)
  respond-delivered command reads later sends false e w s =
      let i = init_response-SendsAll reads later sends e in
      elim (send_all-SendsAll later (head_texts content_type) sends [] w head_texts-IsShort) [
        | inl (rest, r, a) ↦
            body-delivered command later sends rest (with_sends reads sends []) s a (i ∙ ap some r)
        | inr (rest, after, r, b) ↦ (
          failure,
          with_sends later rest after,
          rw (i ∙ ap some r, respond) refl,
          b (body_texts command),
        )
      ]
