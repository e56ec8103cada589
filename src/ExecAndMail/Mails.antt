-- ===== src/ExecAndMail/Mails.antt =====
-- The whole way of a line: each buffer that `handle_data` of src/exec-and-mail.c hands to
-- `send_buffer` is sent over a connection of its own, which `open_socket` makes.
use sntools.Base.{Option, none, some, List, [], ◌∷◌, ℕ, suc, ℤ, Bytes, false}
use sntools.Net.{Resolver, Kernel, open_socket}
use sntools.ExecAndMail.Session.{Socket, Envelope, send_buffer}

-- `smtpHost`, `smtpPort`, and what goes into each mail.
pub record Target : Type 0 where
  pub smtp_host : Bytes
  pub smtp_port : ℤ
  pub envelope : Envelope

-- What a connection meets: the kernel's results, what `ip[255]` of `open_socket` holds before, and
-- what the server writes.
pub record Attempt : Type 0 where
  pub kernel : Kernel
  pub stack : Bytes
  pub replies : Bytes

-- What `send_buffer` returns, and the socket that it leaves; `none` is an overflow.
abbrev pub Session : Type 0
Session = ℤ × Socket

-- `send_buffer` with its `open_socket`.
unfoldable pub send_mail : Resolver → Target → Attempt → List Bytes → Option Session
send_mail r t a buffer =
    let (socket, calls) = open_socket r a.kernel a.stack t.smtp_host t.smtp_port in
    send_buffer socket t.envelope buffer
      (record { unread = a.replies; written = []; closed = false })

-- One mail after the other; `attempts` are the connections from the first mail on.
unfoldable pub send_mails :
    Resolver → Target → (attempts : ℕ → Attempt) → ℕ → List (List Bytes) → Option (List Session)
send_mails r t attempts k [] = some []
send_mails r t attempts k (buffer ∷ buffers) = elim (send_mail r t (attempts k) buffer) [
  | none ↦ none
  | some s ↦ elim (send_mails r t attempts (suc k) buffers) [
    | none ↦ none
    | some ss ↦ some (s ∷ ss)
  ]
]
