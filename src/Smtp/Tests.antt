-- ===== src/Smtp/Tests.antt =====
-- The SMTP helpers on small inputs, and the theorems at them.
use sntools.Base.{◌≡◌, refl, true, some, replicate, Bytes, codes}
use sntools.Smtp.{
  read_loop, smtp_read, smtp_write, is_allowed, hex_digit, encode, round, wrap, qp_round, qp_loop,
  smtp_qp_write,
}
use sntools.Smtp.Lines.{lines_within, is_plain, smtp_qp_write-lines_within}

smtp_read_runs : (smtp_read (codes "250 ok\r\n354 go\r\n")).unread ≡ codes "354 go\r\n"
unfolding smtp_read read_loop
smtp_read_runs = refl

smtp_write_runs : smtp_write (codes ".\r\n") ≡ codes "..\r\n"
unfolding smtp_write
smtp_write_runs = refl

smtp_qp_write_runs : smtp_qp_write (codes "a=b\n.\r\nc\n") ≡ some (codes "a=3Db\r\n..\r\nc\r\n")
unfolding smtp_qp_write qp_loop qp_round round wrap is_allowed encode hex_digit
smtp_qp_write_runs = refl

smtp_qp_write-lines_within_example :
    (out : Bytes) × (smtp_qp_write (replicate 80 b'x') ≡ some out) × (lines_within 76 0 out ≡ true)
unfolding is_plain is_allowed
smtp_qp_write-lines_within_example = smtp_qp_write-lines_within (replicate 80 b'x') refl
