-- ===== src/Startup/Launch.antt =====
-- A program that goes on has what it needs: the command runs, the server listens, the database is open.
use sntools.Base.{
  ℕ, ◌+◌, ◌<◌, ◌≤◌, ◌≡◌, ◌⊎◌, refl, ap, ◌∙◌, Bool, true, false, Option, none, some, List, [], ◌∷◌,
  ◌++◌, arith, inl, inr, Bool-cases, length, length-append, ltb, ℤ, Bytes, codes,
}
use sntools.Net.{Kernel, Call, opened, bound, listening, is_negative, created, create_server_socket}
use sntools.Net.Sockets.{create_server_socket_lem}
use sntools.Mdb.{Outcomes, nothing_open}
use sntools.Mdb.Laws.{AllOk, all_open, prepare_mdb_lem}
use sntools.Hostwatch.Packet
use sntools.Snort.Alert
use sntools.ArpScan
use sntools.Startup.{
  Start, exit_ioerr, running, run_command, launch, tcpdump_command, hostwatch_main, snort_command,
  snort_conf, snort_main, arp_scan_command, arp_scan_main,
}

-- The server's socket, bound and listening, if there is an address; else no socket.
abbrev pub Serves : Kernel → Option Bytes → List Call → Type 0
Serves k none calls = calls ≡ []
Serves k (some ip) calls = calls ≡ opened k.socket ∷ bound k.socket ∷ listening k.socket ∷ []

-- Why a start fails: the command, or the server, if there is an address for one.
abbrev pub HasNoServer : Kernel → Option Bytes → (port : ℤ) → Type 0
HasNoServer k none port = ⊥
HasNoServer k (some ip) port = is_negative (create_server_socket k ip port).0 ≡ true

module _ (k : Kernel) (popen : Bytes → Bool) (port : ℤ) (command : Bytes) where
  -- The program goes on with the command started and its server listening, or ends with EX_IOERR.
  abbrev pub Launched : Option Bytes → Start Bytes × List Call → Type 0
  Launched server_ip s =
      ((s.0 ≡ running command) × (popen command ≡ true) × Serves k server_ip s.1)
      ⊎ ((s.0 ≡ exit_ioerr) × ((popen command ≡ false) ⊎ HasNoServer k server_ip port))

  create_server_socket-Serves :
      (ip : Bytes)
      → is_negative (create_server_socket k ip port).0 ≡ false
      → Serves k (some ip) (create_server_socket k ip port).1
  create_server_socket-Serves ip h = elim (create_server_socket_lem k ip port) [
    | inr (e, _) ↦ cc (ap is_negative e, h)
    | inl (_, _, e) ↦
        let live : is_negative k.socket ≡ false = cc (ap (λ r. is_negative r.0) e, h) in
        let made : created k.socket ++ bound k.socket ∷ listening k.socket ∷ []
            ≡ opened k.socket ∷ bound k.socket ∷ listening k.socket ∷ [] =
          rw live refl in
        ap (λ r. r.1) e ∙ made
  ]

  launch-Launched :
      (size : ℕ) (server_ip : Option Bytes)
      → length command < size
      → Launched server_ip (launch k popen server_ip port size command)
  unfolding launch run_command
  launch-Launched size none h =
      let fits : ltb (length command) size ≡ true = ground arith in
      elim (Bool-cases (popen command)) [
        | inl e ↦ rw (fits, e) (inl (refl, refl, refl))
        | inr e ↦ rw (fits, e) (inr (refl, inl refl))
      ]
  launch-Launched size (some ip) h =
      let fits : ltb (length command) size ≡ true = ground arith in
      elim (Bool-cases (is_negative (create_server_socket k ip port).0)) [
        | inl f ↦ rw (f, launch) (inr (refl, inr refl))
        | inr f ↦ elim (Bool-cases (popen command)) [
          | inl e ↦ rw (f, launch, fits, e) (inl (refl, refl, create_server_socket-Serves ip f))
          | inr e ↦ rw (f, launch, fits, e) (inr (refl, inl refl))
        ]
      ]

-- With an interface whose name has at most 33 bytes hostwatch goes on with tcpdump started on it and, if
-- `-s` is given, its server bound and listening; or it ends with EX_IOERR, because tcpdump cannot be
-- started or that server cannot be created.
pub hostwatch_main-Launched :
    (k : Kernel) (popen : Bytes → Bool) (c : sntools.Hostwatch.Packet.Config) (i : Bytes)
    → c.interface ≡ some i
    → length i ≤ 33
    → Launched k popen c.server_port (tcpdump_command i) c.server_ip (hostwatch_main k popen c)
unfolding hostwatch_main
hostwatch_main-Launched k popen c i e h =
    rw (e, hostwatch_main)
      (launch-Launched k popen c.server_port (tcpdump_command i) 46 c.server_ip (omega arith))

length-snort_command :
    (i h : Bytes) → length (snort_command i h snort_conf) ≡ length i + length h + 62
length-snort_command i h =
    let front = codes "/usr/sbin/snort -d -i " ++ i in
    let middle = front ++ codes " -h " in
    let behind = middle ++ h in
    let option = behind ++ codes " -A console -c " in
    omega (
      arith,
      length-append option snort_conf,
      length-append behind (codes " -A console -c "),
      length-append middle h,
      length-append front (codes " -h "),
    )

-- With an interface and a home network of at most 1000 bytes together snort-scan-util goes on with snort
-- started on them and, if `-s` is given, its server bound and listening; or it ends with EX_IOERR,
-- because snort cannot be started or that server cannot be created.
snort_main-Launched :
    (k : Kernel) (popen : Bytes → Bool) (c : sntools.Snort.Alert.Config) (i home : Bytes)
    → c.interface ≡ some i
    → c.home_network ≡ some home
    → length i + length home ≤ 1000
    → Launched k popen c.server_port
        (snort_command i home snort_conf)
        c.server_ip
        (snort_main k popen c)
unfolding snort_main
snort_main-Launched k popen c i home e f h =
    rw (e, snort_main, f)
      (launch-Launched k popen c.server_port (snort_command i home snort_conf) 1071 c.server_ip
        (omega (arith, length-snort_command i home)))

-- With an interface whose name has at most 33 bytes arp-scan-util goes on with arp-scan started on it
-- and the database open, or ends with EX_IOERR: with nothing open if the database cannot be opened,
-- and with the database open, its transaction not committed, if arp-scan cannot be started.
pub arp_scan_main_lem :
    (o : Outcomes) (popen : Bytes → Bool) (c : sntools.ArpScan.Config) (i : Bytes)
    → c.interface ≡ some i
    → length i ≤ 33
    → ((arp_scan_main o popen c ≡ (running (arp_scan_command i), some all_open))
        × AllOk o
        × (popen (arp_scan_command i) ≡ true))
      ⊎ ((arp_scan_main o popen c ≡ (exit_ioerr, some nothing_open))
          ⊎ ((arp_scan_main o popen c ≡ (exit_ioerr, some all_open))
              × (popen (arp_scan_command i) ≡ false)))
unfolding arp_scan_main run_command
arp_scan_main_lem o popen c i e h =
    let fits : ltb (length (arp_scan_command i)) (length (arp_scan_command (codes "%s")) + 32)
        ≡ true =
      ground (arith, length-append i (codes " --localnet -x")) in
    elim (prepare_mdb_lem o) [
      | inr closed ↦ rw (e, arp_scan_main, closed) (inr (inl refl))
      | inl (ready, oks) ↦ elim (Bool-cases (popen (arp_scan_command i))) [
        | inl f ↦ rw (e, arp_scan_main, ready, fits, f) (inl (refl, oks, refl))
        | inr f ↦ rw (e, arp_scan_main, ready, fits, f) (inr (inr (refl, refl)))
      ]
    ]
