-- ===== src/Httpd/Sends.antt =====
-- What arrives of some writes when any of them may fail.
use sntools.Base.{
  ℕ, zero, suc, ◌≤◌, ◌<◌, ◌≡◌, ◌⊎◌, refl, ap, ◌∙◌, sym, true, false, List, [], ◌∷◌, ◌++◌,
  append_assoc, append-nil, joined, arith, inl, inr, length, take, ℤ, pos, Bytes, All,
}
use sntools.Net.{Received, Sent, refused, accepted, Client, failure, writes}
use sntools.Httpd.{buffer_size, write_or_fail, send_lines}

-- The texts that arrive: all up to the first one that is refused.
abbrev pub delivered : List Sent → List Bytes → List Bytes
delivered [] texts = texts
delivered (refused ∷ sends) texts = []
delivered (accepted n ∷ sends) [] = []
delivered (accepted n ∷ sends) (text ∷ texts) = text ∷ delivered sends texts

-- A `send` takes all of a text that fits the buffer, or fails.
abbrev pub IsWhole : Sent → Type 0
IsWhole refused = Unit
IsWhole (accepted n) = buffer_size ≤ n

abbrev pub IsShort : Bytes → Type 0
IsShort text = length text < buffer_size

abbrev pub with_sends : List Received → List Sent → Bytes → Client
with_sends reads sends sent = record { reads = reads; sends = sends; sent = sent }

take-all : (n : ℕ) (text : Bytes) → length text ≤ n → take n text ≡ text
take-all zero [] h = refl
take-all zero (c ∷ text) h = let no_room : ⊥ = omega (arith, h) in elim no_room [ ]
take-all (suc n) [] h = refl
take-all (suc n) (c ∷ text) h = ap (◌∷◌ c) (take-all n text (omega (arith, h)))

module _ (reads : List Received) where
  send_lines-lost : (lines : List Bytes) (c : Client) → send_lines false lines c ≡ c
  unfolding send_lines
  send_lines-lost [] c = refl
  send_lines-lost (line ∷ lines) c = send_lines-lost lines c

  pub send_lines-delivered :
      (lines : List Bytes) (sends : List Sent) (sent : Bytes)
      → All IsWhole sends
      → All IsShort lines
      → (send_lines true lines (with_sends reads sends sent)).sent
        ≡ sent ++ joined (delivered sends lines)
  unfolding send_lines writes
  send_lines-delivered [] [] sent w s = sym (append-nil sent)
  send_lines-delivered [] (refused ∷ sends) sent w s = sym (append-nil sent)
  send_lines-delivered [] (accepted n ∷ sends) sent w s = sym (append-nil sent)
  send_lines-delivered (line ∷ lines) [] sent w (s, ss) =
      send_lines-delivered lines [] (sent ++ line) w ss ∙ append_assoc sent line (joined lines)
  send_lines-delivered (line ∷ lines) (refused ∷ sends) sent (_, w) (s, ss) =
      ap (λ (c : Client). c.sent) (send_lines-lost lines (with_sends reads sends sent))
      ∙ sym (append-nil sent)
  send_lines-delivered (line ∷ lines) (accepted n ∷ sends) sent (v, w) (s, ss) =
      rw (send_lines, take-all n line (omega (arith, v, s)))
        (send_lines-delivered lines sends (sent ++ line) w ss
          ∙ append_assoc sent line (joined (delivered sends lines)))

  -- Writes one after the other, up to the first that fails.
  abbrev pub send_all : List Bytes → Client → ℤ × Client
  send_all [] c = (pos 0, c)
  send_all (text ∷ texts) c = write_or_fail text c (send_all texts)

  -- Either all of the texts arrive, and others may follow, or some do and nothing follows.
  pub record Arrived (texts : List Bytes) (sends later : List Sent) : Type 0 where
    pub whole_later : All IsWhole later
    pub goes_on :
        (more : List Bytes) → delivered sends (texts ++ more) ≡ texts ++ delivered later more

  abbrev pub Broken : List Bytes → List Sent → Bytes → Bytes → Type 0
  Broken texts sends before after =
      (more : List Bytes) → after ≡ before ++ joined (delivered sends (texts ++ more))

  abbrev pub SendsAll : List Bytes → List Sent → Bytes → ℤ × Client → Type 0
  SendsAll texts sends sent r =
      ((later : List Sent) × (r ≡ (pos 0, with_sends reads later (sent ++ joined texts)))
        × Arrived texts sends later)
      ⊎ ((later : List Sent) × (after : Bytes) × (r ≡ (failure, with_sends reads later after))
          × Broken texts sends sent after)

  pub send_all-SendsAll :
      (texts : List Bytes) (sends : List Sent) (sent : Bytes)
      → All IsWhole sends
      → All IsShort texts
      → SendsAll texts sends sent (send_all texts (with_sends reads sends sent))
  unfolding writes
  send_all-SendsAll [] sends sent w s = inl (
    sends,
    ap (λ x. (pos 0, with_sends reads sends x)) (sym (append-nil sent)),
    record { whole_later = w; goes_on = λ more. refl },
  )
  send_all-SendsAll (text ∷ texts) [] sent w (s, ss) =
      elim (send_all-SendsAll texts [] (sent ++ text) w ss) [
        | inl (later, e, a) ↦ inl (
          later,
          e ∙ ap (λ x. (pos 0, with_sends reads later x)) (append_assoc sent text (joined texts)),
          record { whole_later = a.whole_later; goes_on = λ more. ap (◌∷◌ text) (a.goes_on more) },
        )
        | inr (later, after, e, b) ↦
            inr (later, after, e, λ more. b more ∙ append_assoc sent text (joined (texts ++ more)))
      ]
  send_all-SendsAll (text ∷ texts) (refused ∷ sends) sent (_, w) (s, ss) =
      inr (sends, sent, refl, λ more. sym (append-nil sent))
  send_all-SendsAll (text ∷ texts) (accepted n ∷ sends) sent (v, w) (s, ss) =
      rw (take-all n text (omega (arith, v, s)))
        (elim (send_all-SendsAll texts sends (sent ++ text) w ss) [
          | inl (later, e, a) ↦ inl (
            later,
            e ∙ ap (λ x. (pos 0, with_sends reads later x)) (append_assoc sent text (joined texts)),
            record {
              whole_later = a.whole_later;
              goes_on = λ more. ap (◌∷◌ text) (a.goes_on more);
            },
          )
          | inr (later, after, e, b) ↦ inr (
            later,
            after,
            e,
            λ more. b more ∙ append_assoc sent text (joined (delivered sends (texts ++ more))),
          )
        ])

  pub writes-delivered :
      (text : Bytes) (sends : List Sent) (sent : Bytes)
      → All IsWhole sends
      → IsShort text
      → (writes text (with_sends reads sends sent)).1.sent
        ≡ sent ++ joined (delivered sends (text ∷ []))
  unfolding writes
  writes-delivered text [] sent w s = ap (λ t. sent ++ t) (sym (append-nil text))
  writes-delivered text (refused ∷ sends) sent w s = sym (append-nil sent)
  writes-delivered text (accepted n ∷ sends) sent (v, w) s =
      ap (λ t. sent ++ t) (take-all n text (omega (arith, v, s)) ∙ sym (append-nil text))
      ∙ ap (λ ts. sent ++ (text ++ joined ts)) (sym (delivered_nil sends))
    where
      delivered_nil : (ss : List Sent) → delivered ss [] ≡ []
      delivered_nil [] = refl
      delivered_nil (refused ∷ ss) = refl
      delivered_nil (accepted n ∷ ss) = refl
