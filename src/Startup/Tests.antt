-- ===== src/Startup/Tests.antt =====
-- Starts with a kernel in which every call succeeds, and the theorems at them.
use sntools.Base.{
  ◌≡◌, ◌⊎◌, refl, Bool, true, false, some, [], ◌∷◌, arith, pos, Bytes, codes, atoi, digits,
  skip_space, signed,
}
use sntools.Net.{Kernel, opened, bound, listening, create_server_socket}
use sntools.Mdb.{Outcomes, nothing_open}
use sntools.Mdb.Laws.{AllOk, all_open}
use sntools.Hostwatch.Output
use sntools.Snort.Alert
use sntools.ArpScan
use sntools.Httpd
use sntools.ExecAndMail
use sntools.Startup.{
  exit_usage, exit_ioerr, running, hostwatch_main, arp_scan_command, arp_scan_main, httpd_main,
  exec_and_mail_main,
}
use sntools.Startup.Launch.{Launched, hostwatch_main-Launched, arp_scan_main_lem}

abbrev kernel : Kernel
kernel = record {
  socket = pos 5;
  connect = λ a p. pos 0;
  inet_addr = λ ip. 7;
  bind = λ a p. pos 0;
  listen = pos 0;
}

abbrev starts : Bytes → Bool
starts command = true

abbrev watching : sntools.Hostwatch.Packet.Config
watching = record sntools.Hostwatch.Output.defaults {
  interface = some (codes "eth0");
  server_ip = some (codes "10.0.0.1");
}

hostwatch_main-Launched_example :
    Launched kernel starts
      (pos 8002)
      (codes "tcpdump -ni eth0")
      (some (codes "10.0.0.1"))
      (hostwatch_main kernel starts watching)
hostwatch_main-Launched_example =
    hostwatch_main-Launched kernel starts watching (codes "eth0") refl (omega arith)

abbrev scanning : sntools.Snort.Alert.Config
scanning = record sntools.Snort.Alert.defaults {
  interface = some (codes "eth0");
  home_network = some (codes "10.0.0.0/8");
}

abbrev outcomes : Outcomes
outcomes = record {
  dir_exists = true;
  mkdir_ok = true;
  env_create_ok = true;
  env_open_ok = true;
  txn_begin_ok = true;
  dbi_open_ok = true;
}

abbrev arp_config : sntools.ArpScan.Config
arp_config = record { interface = some (codes "eth0"); mdb_data_dir = codes "/tmp"; verbosity = 0 }

arp_scan_main_lem_example :
    ((arp_scan_main outcomes starts arp_config
        ≡ (running (arp_scan_command (codes "eth0")), some all_open))
      × AllOk outcomes
      × (starts (arp_scan_command (codes "eth0")) ≡ true))
    ⊎ ((arp_scan_main outcomes starts arp_config ≡ (exit_ioerr, some nothing_open))
        ⊎ ((arp_scan_main outcomes starts arp_config ≡ (exit_ioerr, some all_open))
            × (starts (arp_scan_command (codes "eth0")) ≡ false)))
arp_scan_main_lem_example =
    arp_scan_main_lem outcomes starts arp_config (codes "eth0") refl (omega arith)

httpd_starts :
    httpd_main kernel sntools.Httpd.defaults (codes "uptime" ∷ [])
    ≡ (running (codes "uptime"), opened (pos 5) ∷ bound (pos 5) ∷ listening (pos 5) ∷ [])
unfolding httpd_main create_server_socket
httpd_starts = refl

exec_and_mail_refuses :
    exec_and_mail_main starts
      (codes "host")
      sntools.ExecAndMail.defaults
      (codes "smtp" ∷ codes "25" ∷ codes "a" ∷ codes "" ∷ codes "ls" ∷ [])
    ≡ exit_usage
unfolding exec_and_mail_main atoi digits skip_space signed
exec_and_mail_refuses = refl
