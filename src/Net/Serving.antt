-- ===== src/Net/Serving.antt =====
-- The accept loop serves every connection, one after the other, and closes it.
use sntools.Base.{
  ◌≡◌, refl, ap, ◌∙◌, List, [], ◌∷◌, ◌++◌, append_assoc, append-nil, if◌then◌else◌, inl, inr,
  Bool-cases, ℤ, ltb_ℤ,
}
use sntools.Net.{Call, opened, closed, failure, accept_loop}

-- The connections among what `accept` returns.
abbrev pub connections : List ℤ → List ℤ
connections [] = []
connections (client ∷ later) =
    if ltb_ℤ failure client then client ∷ connections later else connections later

-- The requests one after the other.
abbrev pub serve_all : {S : Type 0} → (ℤ → S → S) → List ℤ → S → S
serve_all handle [] state = state
serve_all handle (client ∷ later) state = serve_all handle later (handle client state)

abbrev pub opened_and_closed : List ℤ → List Call
opened_and_closed [] = []
opened_and_closed (client ∷ later) = opened client ∷ closed client ∷ opened_and_closed later

module _ {S : Type 0} (handle : ℤ → S → S) where
  -- Whatever `accept` returns, failures included, `accept_loop` hands each connection to the handler
  -- once, in order, and closes each one before it accepts the next.
  pub accept_loop-serve_all :
      (answers : List ℤ) (state : S) (calls : List Call)
      → accept_loop handle answers (state, calls) ≡ (
        serve_all handle (connections answers) state,
        calls ++ opened_and_closed (connections answers),
      )
  unfolding accept_loop
  accept_loop-serve_all [] state calls = rw (append-nil calls) refl
  accept_loop-serve_all (client ∷ later) state calls = elim (Bool-cases (ltb_ℤ failure client)) [
    | inr e ↦ rw e (accept_loop-serve_all later state calls)
    | inl e ↦ rw e (
        accept_loop-serve_all later (handle client state)
          (calls ++ opened client ∷ closed client ∷ [])
        ∙ ap (λ cs. (serve_all handle (connections later) (handle client state), cs))
            (append_assoc calls (opened client ∷ closed client ∷ [])
              (opened_and_closed (connections later))))
  ]
