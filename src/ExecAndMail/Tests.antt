-- ===== src/ExecAndMail/Tests.antt =====
-- A small run and a small mail, and the theorems at them.
use sntools.Base.{
  All, ◌≢◌, joined, ◌≡◌, refl, true, false, some, List, [], ◌∷◌, ◌++◌, arith, pos, negsuc, none, ℕ,
  str_eq, if◌then◌else◌, Bytes, codes, atoi,
}
use sntools.Net.{ip4, Resolver}
use sntools.ExecAndMail.Mails.{Target, Attempt, Session}
use sntools.ExecAndMail.Received.{HasAddress}
use sntools.Smtp.{smtp_read, read_loop, smtp_qp_write, qp_loop, qp_round, round, wrap, is_allowed}
use sntools.ExecAndMail.{
  Mailer, Config, defaults, configure, start, handle_data, store_line, main_loop, here, next,
  read_line, timer,
}
use sntools.ExecAndMail.Delivery.{
  Delivered, AllButLast, Reach-Delivered, Reach-mailed, main_loop-mails,
}
use sntools.ExecAndMail.Session.{
  Socket, Envelope, put, expect, envelope_phase, converse, send_buffer,
}
use sntools.ExecAndMail.Transcript.{IsPositive, IsBody, with_lf, transcript, send_buffer-transcript}

abbrev lines : List Bytes
lines = codes "a\n" ∷ codes "b\n" ∷ codes "c\n" ∷ []

main_loop_runs :
    (main_loop (pos 2) lines start).sent
    ≡ (codes "a\n" ∷ codes "b\n" ∷ []) ∷ (codes "c\n" ∷ []) ∷ []
unfolding main_loop handle_data store_line
main_loop_runs = refl

abbrev timed : Config
timed = record defaults { wait_timeout = pos 5 }

configure_runs : configure ((b't', codes "5") ∷ []) defaults ≡ timed
unfolding configure atoi
configure_runs = refl

Reach-Delivered_example : Delivered (handle_data (pos 100) true (store_line (codes "a\n") start))
Reach-Delivered_example =
    Reach-Delivered {c = timed} (next (next here (read_line (codes "a\n"))) (timer refl))

abbrev one_line : Mailer
one_line = store_line (codes "a\n") start

Reach-mailed_example :
    (joined (handle_data (pos 100) true one_line).sent ≡ codes "a\n" ∷ [])
    × All (λ b. b ≢ []) (handle_data (pos 100) true one_line).sent
    × ((handle_data (pos 100) true one_line).buffer ≡ [])
unfolding store_line
Reach-mailed_example = Reach-mailed {c = timed} (next here (read_line (codes "a\n")))

main_loop-mails_example :
    ((main_loop (pos 2) lines start).buffer ≡ [])
    × (joined (main_loop (pos 2) lines start).sent ≡ lines)
    × AllButLast 2 (main_loop (pos 2) lines start).sent
main_loop-mails_example = main_loop-mails 2 lines (omega arith)

abbrev envelope : Envelope
envelope = record {
  helo_name = codes "h";
  env_from = codes "f";
  env_to = codes "t";
  subject = codes "s";
}

abbrev talking : Bytes → Socket
talking stream = record { unread = stream; written = []; closed = false }

abbrev left : Socket
left = record { unread = []; written = codes "helo h\r\n"; closed = false }

refused : send_buffer (pos 3) envelope lines (talking (codes "220\n550\n")) ≡ some (negsuc 0, left)
unfolding send_buffer converse envelope_phase put expect smtp_read read_loop
refused = refl

two_lines-IsBody : IsBody lines (codes "a\r\n" ++ (codes "b\r\n" ++ (codes "c\r\n" ++ [])))
unfolding smtp_qp_write qp_loop qp_round round wrap is_allowed
two_lines-IsBody = IsBody.cons refl (IsBody.cons refl (IsBody.cons refl IsBody.nil))

yes_line : IsPositive (codes "250")
yes_line = record { lacks = omega arith; positive = refl }

send_buffer-transcript_example :
    send_buffer (pos 3) envelope lines (
      talking (
        with_lf
          (codes "250"
            ∷ codes "250"
            ∷ codes "250"
            ∷ codes "250"
            ∷ codes "250"
            ∷ codes "250"
            ∷ codes "250"
            ∷ [])
          []))
    ≡ some (
      pos 0,
      record {
        unread = [];
        written = transcript envelope (codes "a\r\n" ++ (codes "b\r\n" ++ (codes "c\r\n" ++ [])));
        closed = true;
      },
    )
send_buffer-transcript_example =
    send_buffer-transcript envelope (codes "250") (codes "250") (codes "250") (codes "250")
      (codes "250") (codes "250") (codes "250") [] (pos 3) lines
      (codes "a\r\n" ++ (codes "b\r\n" ++ (codes "c\r\n" ++ [])))
      (yes_line, (yes_line, (yes_line, (yes_line, (yes_line, tt))))) yes_line yes_line refl
      two_lines-IsBody

abbrev ip4_only : Resolver
ip4_only = record {
  getaddrinfo = λ name. (pos 0, ip4 (codes "10.0.0.9") ∷ []);
  inet_pton = λ text. if str_eq text (codes "10.0.0.9") then some 9 else none;
  getnameinfo = λ address size. none;
}

abbrev target : Target
target = record { smtp_host = codes "mail"; smtp_port = pos 25; envelope = envelope }

abbrev reached : HasAddress ip4_only (codes "mail")
unfolding str_eq
reached = record {
  text = codes "10.0.0.9";
  named = refl;
  some_text = refl;
  address = 9;
  read = refl;
}

abbrev replies : List Bytes
replies =
    codes "250"
    ∷ codes "250"
    ∷ codes "250"
    ∷ codes "250"
    ∷ codes "250"
    ∷ codes "250"
    ∷ codes "250"
    ∷ []

abbrev accepting : ℕ → Attempt
accepting k = record {
  kernel = record {
    socket = pos 4;
    connect = λ address port. pos 0;
    inet_addr = λ text. 0;
    bind = λ address port. pos 0;
    listen = negsuc 0;
  };
  stack = [];
  replies = with_lf replies [];
}

abbrev refusing : ℕ → Attempt
refusing k = record (accepting k) { replies = codes "220\n550\n" }
