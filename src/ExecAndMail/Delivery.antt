-- ===== src/ExecAndMail/Delivery.antt =====
-- No line of the command is lost, doubled or reordered on its way to `send_buffer`.
use sntools.Base.{
  joined, joined-append, ℕ, ◌≤◌, ◌<◌, ◌≡◌, ◌≢◌, refl, sym, ap, ◌∙◌, Bool, true, false, List, [],
  ◌∷◌, ◌++◌, append_assoc, append-nil, arith, ltb_ℤ, length, length-append, ℤ, pos, Bytes, All,
  All-append, inl, inr, Bool-cases,
}
use sntools.ExecAndMail.{
  Config, Mailer, start, is_nil, handle_data, store_line, main_loop, Step, read_line, check, timer,
  finish, Reach, here, next,
}

-- What was sent and what waits is what was read, and no mail was empty.
pub record Delivered (m : Mailer) : Type 0 where
  pub all : joined m.sent ++ m.buffer ≡ m.read
  pub filled : All (λ b. b ≢ []) m.sent

module _ (m : Mailer) (d : Delivered m) where
  send-Delivered :
      m.buffer ≢ [] → Delivered (record m { sent = m.sent ++ m.buffer ∷ []; buffer = [] })
  send-Delivered ne = record {
    all =
        append-nil (joined (m.sent ++ m.buffer ∷ []))
        ∙ joined-append m.sent (m.buffer ∷ [])
        ∙ ap (λ x. joined m.sent ++ x) (append-nil m.buffer)
        ∙ d.all;
    filled = All-append (λ b. b ≢ []) m.sent (m.buffer ∷ []) d.filled (ne, tt);
  }

  handle_data-Delivered : (max : ℤ) (force : Bool) → Delivered (handle_data max force m)
  unfolding handle_data
  handle_data-Delivered max force = ground (arith, send-Delivered)

  store_line-Delivered : (line : Bytes) → Delivered (store_line line m)
  unfolding store_line
  store_line-Delivered line = record {
    all = sym (append_assoc (joined m.sent) m.buffer (line ∷ [])) ∙ ap (λ x. x ++ line ∷ []) d.all;
    filled = d.filled;
  }

Step-Delivered : {c : Config} {m n : Mailer} → Step c m n → Delivered m → Delivered n
Step-Delivered {c} {m} (read_line line) d = store_line-Delivered m d line
Step-Delivered {c} {m} check d = handle_data-Delivered m d c.buffer_max_lines false
Step-Delivered {c} {m} (timer h) d = handle_data-Delivered m d c.buffer_max_lines true
Step-Delivered {c} {m} finish d = handle_data-Delivered m d c.buffer_max_lines true

-- However the reading thread and the timer thread interleave, the lines of the mails sent, in
-- order, followed by the buffer, are the lines read so far, and no mail is empty.
pub Reach-Delivered : {c : Config} {m : Mailer} → Reach c start m → Delivered m
Reach-Delivered here = record { all = refl; filled = tt }
Reach-Delivered (next r s) = Step-Delivered s (Reach-Delivered r)

is_nil→nil : (ls : List Bytes) → is_nil ls ≡ true → ls ≡ []
is_nil→nil [] h = refl
is_nil→nil (x ∷ ls) h = cc

handle_data-read : (max : ℤ) (force : Bool) (m : Mailer) → (handle_data max force m).read ≡ m.read
unfolding handle_data
handle_data-read max force m = ground arith

handle_data-buffer : (max : ℤ) (m : Mailer) → (handle_data max true m).buffer ≡ []
unfolding handle_data
handle_data-buffer max m = elim (Bool-cases (is_nil m.buffer)) [
  | inl e ↦ rw e (is_nil→nil m.buffer e)
  | inr e ↦ rw e refl
]

-- However the two threads have interleaved: once the last `handle_data` of `main` has run behind the
-- end of the command, every line read has been handed to `send_buffer`, once and in order, in mails
-- that are not empty, and nothing waits in the buffer.
pub Reach-mailed :
    {c : Config} {m : Mailer}
    → Reach c start m
    → (joined (handle_data c.buffer_max_lines true m).sent ≡ m.read)
      × All (λ b. b ≢ []) (handle_data c.buffer_max_lines true m).sent
      × ((handle_data c.buffer_max_lines true m).buffer ≡ [])
Reach-mailed {c} {m} r =
    let last = handle_data c.buffer_max_lines true m in
    let d = handle_data-Delivered m (Reach-Delivered r) c.buffer_max_lines true in
    let empty = handle_data-buffer c.buffer_max_lines m in
    (
      sym (append-nil (joined last.sent))
          ∙ ap (λ b. joined last.sent ++ b) (sym empty)
          ∙ d.all
          ∙ handle_data-read c.buffer_max_lines true m,
      d.filled,
      empty,
    )

-- Mails of exactly `n` lines, but for the last one, which may have fewer.
abbrev pub AllButLast : ℕ → List (List Bytes) → Type 0
AllButLast n [] = Unit
AllButLast n (b ∷ []) = length b ≤ n
AllButLast n (b ∷ c ∷ bs) = (length b ≡ n) × AllButLast n (c ∷ bs)

record Batched (n : ℕ) (m : Mailer) : Type 0 where
  full : All (λ b. length b ≡ n) m.sent
  room : length m.buffer < n

AllButLast-full : (n : ℕ) (bs : List (List Bytes)) → All (λ b. length b ≡ n) bs → AllButLast n bs
AllButLast-full n [] h = tt
AllButLast-full n (b ∷ []) h = omega arith
AllButLast-full n (b ∷ c ∷ bs) h = (h.0, AllButLast-full n (c ∷ bs) h.1)

AllButLast-concat :
    (n : ℕ) (bs : List (List Bytes)) (b : List Bytes)
    → All (λ b. length b ≡ n) bs
    → length b ≤ n
    → AllButLast n (bs ++ b ∷ [])
AllButLast-concat n [] b h k = k
AllButLast-concat n (x ∷ []) b h k = (h.0, k)
AllButLast-concat n (x ∷ y ∷ bs) b h k = (h.0, AllButLast-concat n (y ∷ bs) b h.1 k)

is_nil-concat : (ls : List Bytes) (l : Bytes) → is_nil (ls ++ l ∷ []) ≡ false
is_nil-concat [] l = refl
is_nil-concat (x ∷ ls) l = refl

store_line-read : (line : Bytes) (m : Mailer) → (store_line line m).read ≡ m.read ++ line ∷ []
unfolding store_line
store_line-read line m = refl

module _ (n : ℕ) where
  line-Batched :
      (line : Bytes) (m : Mailer)
      → Batched n m
      → Batched n (handle_data (pos n) false (store_line line m))
  unfolding handle_data store_line
  line-Batched line m b =
      let more = length-append m.buffer (line ∷ []) in
      elim (Bool-cases (ltb_ℤ (pos (length (m.buffer ++ line ∷ []))) (pos n))) [
        | inl e ↦
            rw (is_nil-concat m.buffer line, e) (record { full = b.full; room = ground arith })
        | inr e ↦
            rw (is_nil-concat m.buffer line, e)
              (record {
                full =
                    All-append (λ b. length b ≡ n) m.sent ((m.buffer ++ line ∷ []) ∷ []) b.full
                      (ground arith, tt);
                room = omega arith;
              })
      ]

  -- `max` is positive, so that the buffer is empty again at the end.
  last-Batched :
      (m : Mailer)
      → Batched n m
      → ((handle_data (pos n) true m).buffer ≡ []) × AllButLast n (handle_data (pos n) true m).sent
  unfolding handle_data
  last-Batched m b = elim (Bool-cases (is_nil m.buffer)) [
    | inl e ↦ rw e (is_nil→nil m.buffer e, AllButLast-full n m.sent b.full)
    | inr e ↦ rw e (refl, AllButLast-concat n m.sent m.buffer b.full (omega (arith, b.room)))
  ]

  main_loop-Batched :
      (lines : List Bytes) (m : Mailer)
      → Batched n m
      → ((main_loop (pos n) lines m).buffer ≡ []) × AllButLast n (main_loop (pos n) lines m).sent
  unfolding main_loop
  main_loop-Batched [] m b = last-Batched m b
  main_loop-Batched (line ∷ lines) m b =
      main_loop-Batched lines (handle_data (pos n) false (store_line line m))
        (line-Batched line m b)

main_loop-Delivered :
    (max : ℤ) (lines : List Bytes) (m : Mailer)
    → Delivered m
    → Delivered (main_loop max lines m) × ((main_loop max lines m).read ≡ m.read ++ lines)
unfolding main_loop
main_loop-Delivered max [] m d =
    (handle_data-Delivered m d max true, handle_data-read max true m ∙ sym (append-nil m.read))
main_loop-Delivered max (line ∷ lines) m d =
    let (d', r) =
      main_loop-Delivered max lines (handle_data max false (store_line line m))
        (handle_data-Delivered (store_line line m) (store_line-Delivered m d line) max false) in
    (
      d',
      r
          ∙ ap (λ x. x ++ lines) (handle_data-read max false (store_line line m))
          ∙ ap (λ x. x ++ lines) (store_line-read line m)
          ∙ append_assoc m.read (line ∷ []) lines,
    )

-- With `-c n`, n positive, and no timer, a run over a command's lines ends with an empty buffer; the
-- mails hold exactly these lines in order, and all but the last mail have n of them.
pub main_loop-mails :
    (n : ℕ) (lines : List Bytes)
    → 0 < n
    → ((main_loop (pos n) lines start).buffer ≡ [])
      × (joined (main_loop (pos n) lines start).sent ≡ lines)
      × AllButLast n (main_loop (pos n) lines start).sent
main_loop-mails n lines h =
    let (empty, batches) = main_loop-Batched n lines start (record { full = tt; room = h }) in
    let (d, r) = main_loop-Delivered (pos n) lines start (record { all = refl; filled = tt }) in
    (
      empty,
      sym (append-nil (joined (main_loop (pos n) lines start).sent))
          ∙ ap (λ x. joined (main_loop (pos n) lines start).sent ++ x) (sym empty)
          ∙ d.all
          ∙ r,
      batches,
    )
