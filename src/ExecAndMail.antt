-- ===== src/ExecAndMail.antt =====
-- src/exec-and-mail.c: the buffer of lines, when it is sent, the threads that share it, and the
-- configuration. ExecAndMail/Session has the SMTP dialogue.
pub mod Session
pub mod Transcript
pub mod Closing
pub mod Delivery
pub mod Mails
pub mod Received
pub mod Total
mod Tests
use sntools.Base.{
  ℕ, ◌+◌, ◌≡◌, Bool, true, false, ◌||◌, not, List, [], ◌∷◌, ◌++◌, ltb, ◌==◌, if◌then◌else◌, length,
  ℤ, pos, ltb_ℤ, Bytes, codes, atoi, Opts,
}

-- The variables that `configure` sets.
pub record Config : Type 0 where
  pub subject : Bytes
  pub wait_timeout : ℤ
  pub buffer_max_lines : ℤ
  pub verbosity : ℕ

abbrev pub defaults : Config
defaults = record {
  subject = codes "Output from command";
  wait_timeout = pos 0;
  buffer_max_lines = pos 100;
  verbosity = 0;
}

abbrev pub set_option : ℕ → Bytes → Config → Config
set_option o arg c =
    if o == b's'
    then record c { subject = arg }
    else if o == b't'
    then record c { wait_timeout = atoi arg }
    else if o == b'c'
    then record c { buffer_max_lines = atoi arg }
    else if o == b'v'
    then record c { verbosity = c.verbosity + 1 }
    else c

unfoldable pub configure : Opts → Config → Config
configure [] c = c
configure ((o, arg) ∷ rest) c = configure rest (set_option o arg c)

-- The shared state, with what the run has done so far: the lines read from the command, and the
-- buffers handed to `send_buffer`, in order. `readInto` is the last line of a buffer that is not
-- NULL (the empty list).
pub record Mailer : Type 0 where
  pub buffer : List Bytes
  pub read : List Bytes
  pub sent : List (List Bytes)

abbrev pub start : Mailer
start = record { buffer = []; read = []; sent = [] }

abbrev pub is_nil : List Bytes → Bool
is_nil [] = true
is_nil (_ ∷ _) = false

-- `handle_data`, between its lock and unlock. What `send_buffer` returns is not looked at.
unfoldable pub handle_data : (max : ℤ) (force : Bool) → Mailer → Mailer
handle_data max force m =
    if is_nil m.buffer
    then m
    else if force || not (ltb_ℤ (pos (length m.buffer)) max)
    then record m { sent = m.sent ++ m.buffer ∷ []; buffer = [] }
    else m

-- The locked part of `main`'s loop: the line read goes behind the last one of the buffer.
unfoldable pub store_line : Bytes → Mailer → Mailer
store_line line m = record m { buffer = m.buffer ++ line ∷ []; read = m.read ++ line ∷ [] }

-- `main` alone, without the timer thread: each line, and the rest at the end of the command.
unfoldable pub main_loop : ℤ → List Bytes → Mailer → Mailer
main_loop max [] m = handle_data max true m
main_loop max (line ∷ lines) m = main_loop max lines (handle_data max false (store_line line m))

-- One locked section of either thread. The timer runs only with a timeout.
pub data Step (c : Config) (m : Mailer) : Mailer → Type 0 where
  read_line : (line : Bytes) → Step c m (store_line line m)
  check : Step c m (handle_data c.buffer_max_lines false m)
  timer : ltb_ℤ (pos 0) c.wait_timeout ≡ true → Step c m (handle_data c.buffer_max_lines true m)
  finish : Step c m (handle_data c.buffer_max_lines true m)

pub data Reach (c : Config) (m : Mailer) : Mailer → Type 0 where
  here : Reach c m m
  next : {n k : Mailer} → Reach c m n → Step c n k → Reach c m k
