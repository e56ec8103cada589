-- ===== src/Startup.antt =====
-- What `main` of each program does before it reads the first line: the checks of its arguments, the
-- resources that it opens, and the command that it starts. `popen` stands for whether a command can be
-- started.
pub mod Launch
mod Tests
use sntools.Base.{
  ℕ, ◌+◌, Bool, true, false, Option, none, some, List, [], ◌∷◌, ◌++◌, if◌then◌else◌, length, ltb, ℤ,
  pos, ltb_ℤ, Bytes, codes, atoi,
}
use sntools.Net.{Kernel, Call, is_negative, create_server_socket}
use sntools.Mdb.{Outcomes, Prepared, prepare_mdb}
use sntools.ExecAndMail.Session.{Envelope}
use sntools.Hostwatch.Packet
use sntools.Snort.Alert
use sntools.ArpScan
use sntools.Httpd
use sntools.ExecAndMail

-- The process ends with `EX_USAGE` or `EX_IOERR`, `cmdString` overflows, or the program goes on.
pub data Start (A : Type 0) : Type 0 where
  exit_usage exit_ioerr overflow : Start A
  running : A → Start A

-- The printing of the command into a buffer of that size, and `popen`.
unfoldable pub run_command : (popen : Bytes → Bool) → (size : ℕ) → Bytes → Start Bytes
run_command popen size command =
    if ltb (length command) size
    then if popen command then running command else exit_ioerr
    else overflow

-- The server of `-s`, if an address is given; then the command.
unfoldable pub launch :
    Kernel
    → (popen : Bytes → Bool) → (server_ip : Option Bytes) → (server_port : ℤ) → (size : ℕ) → Bytes
    → Start Bytes × List Call
launch k popen none port size command = (run_command popen size command, [])
launch k popen (some ip) port size command =
    let (server_socket, calls) = create_server_socket k ip port in
    if is_negative server_socket
    then (exit_ioerr, calls)
    else (run_command popen size command, calls)

abbrev pub tcpdump_command : Bytes → Bytes
tcpdump_command interface = codes "tcpdump -ni " ++ interface

-- `main` of src/hostwatch.c; `cmdString` has the size of the format and 32.
unfoldable pub hostwatch_main :
    Kernel → (popen : Bytes → Bool) → sntools.Hostwatch.Packet.Config → Start Bytes × List Call
hostwatch_main k popen c = elim c.interface [
  | none ↦ (exit_usage, [])
  | some i ↦
      launch k popen c.server_ip c.server_port (length (tcpdump_command (codes "%s")) + 32)
        (tcpdump_command i)
]

abbrev pub snort_command : (interface home_network snort_conf : Bytes) → Bytes
snort_command interface home_network snort_conf =
    codes "/usr/sbin/snort -d -i "
    ++ interface
    ++ codes " -h "
    ++ home_network
    ++ codes " -A console -c "
    ++ snort_conf

abbrev pub snort_conf : Bytes
snort_conf = codes "/etc/snort/snort.conf"

-- `main` of src/snort-scan-util.c
unfoldable pub snort_main :
    Kernel → (popen : Bytes → Bool) → sntools.Snort.Alert.Config → Start Bytes × List Call
snort_main k popen c = elim c.interface [
  | none ↦ (exit_usage, [])
  | some i ↦ elim c.home_network [
    | none ↦ (exit_usage, [])
    | some h ↦
        launch k popen c.server_ip c.server_port
          (length (snort_command (codes "%s") (codes "%s") (codes "%s")) + 1024)
          (snort_command i h snort_conf)
  ]
]

abbrev pub arp_scan_command : Bytes → Bytes
arp_scan_command interface =
    codes "/usr/sbin/arp-scan --interface=" ++ interface ++ codes " --localnet -x"

-- `main` of src/arp-scan-util.c; what is open of the database when it exits or goes on.
unfoldable pub arp_scan_main :
    Outcomes → (popen : Bytes → Bool) → sntools.ArpScan.Config → Start Bytes × Option Prepared
arp_scan_main o popen c = elim c.interface [
  | none ↦ (exit_usage, none)
  | some i ↦
      let p = prepare_mdb o in
      if ltb 0 p.status then (exit_ioerr, some p) else (
        run_command popen (length (arp_scan_command (codes "%s")) + 32) (arp_scan_command i),
        some p,
      )
]

abbrev pub is_empty : Bytes → Bool
is_empty [] = true
is_empty (_ ∷ _) = false

-- `main` of src/httpd-exec.c, with the arguments behind the options.
unfoldable pub httpd_main :
    Kernel → sntools.Httpd.Config → (arguments : List Bytes) → Start Bytes × List Call
httpd_main k c [] = (exit_usage, [])
httpd_main k c (command ∷ _) =
    let (server_socket, calls) = create_server_socket k (codes "0.0.0.0") c.port in
    if is_empty command
    then (exit_usage, [])
    else if is_negative server_socket
    then (exit_ioerr, calls)
    else (running command, calls)

-- What exec-and-mail goes on with.
pub record Job : Type 0 where
  pub smtp_host : Bytes
  pub smtp_port : ℤ
  pub envelope : Envelope
  pub command : Bytes
  pub has_timer : Bool

-- `main` of src/exec-and-mail.c, with the arguments behind the options and the name of the host.
unfoldable pub exec_and_mail_main :
    (popen : Bytes → Bool)
    → (hostname : Bytes) → sntools.ExecAndMail.Config
    → (arguments : List Bytes) → Start Job
exec_and_mail_main popen hostname c (host ∷ port ∷ from ∷ to ∷ command ∷ _) =
    if is_empty from
    then exit_usage
    else if is_empty to
    then exit_usage
    else if is_empty command
    then exit_usage
    else if popen command
    then running (record {
      smtp_host = host;
      smtp_port = atoi port;
      envelope = record { helo_name = hostname; env_from = from; env_to = to; subject = c.subject };
      command = command;
      has_timer = ltb_ℤ (pos 0) c.wait_timeout;
    })
    else exit_ioerr
exec_and_mail_main popen hostname c _ = exit_usage
