-- ===== src/ArpScan/Tests.antt =====
-- A line of arp-scan on an empty database, and the theorems at it.
use sntools.Base.{
  List, true, false, ◌≡◌, refl, Option, none, some, [], ◌∷◌, ◌++◌, Bytes, codes, str_eq, contains,
  is_prefix, decimal, decimal_loop,
}
use sntools.Mdb.{
  Lookup, Prepared, close_mdb, found, not_found, with_nul, c_string, get_mdb, put_mdb,
}
use sntools.Mdb.Laws.{LacksNul}
use sntools.Mdb.Memory.{records, records-IsStore, records-Taken}
use sntools.ArpScan.{
  Scan, set_option, configure, strtok, skip_tabs, until_tab, check_item, store_item, stamp_key,
  process_line, process_lines, scan, summary,
}
use sntools.ArpScan.Stored.{puts_of, IsLine, Scanned, process_line-Scanned}
use sntools.ArpScan.Known.{process_line-last_seen}
use sntools.ArpScan.Hosts.{scan_puts, IsFine, IsHost}
use sntools.ArpScan.Rescan.{scan_again}
use sntools.ArpHistory.{output}
use sntools.ArpHistory

abbrev ip : Bytes
ip = codes "10.0.0.1"

abbrev mac : Bytes
mac = codes "aa:bb"

abbrev hostname : Bytes
hostname = codes "host"

abbrev line : Bytes
line = codes "10.0.0.1\taa:bb\tVendor\n"

abbrev names : Bytes → Option Bytes
names address = some hostname

abbrev empty : Scan records
empty = record { txn = λ k. not_found; cnt_new_items = 0; cnt_changed_items = 0; out = [] }

abbrev sixteen : List (Bytes × Bytes)
sixteen = puts_of ip mac hostname (codes "16")

two_lines_run :
    (s : Scan records) × (process_lines records 1 names
        ((codes "16", line) ∷ (codes "17", line) ∷ [])
        empty
      ≡ some s)
    × (s.cnt_new_items ≡ 2)
    × (s.cnt_changed_items ≡ 0)
    × (get_mdb records s.txn (stamp_key mac) ≡ found (with_nul (codes "17")))
unfolding process_lines process_line strtok skip_tabs until_tab check_item store_item get_mdb
    put_mdb c_string str_eq
two_lines_run = (_, refl, refl, refl, refl)

line-IsLine : IsLine names line ip mac hostname
unfolding strtok skip_tabs until_tab
line-IsLine = record {
  rest = codes "aa:bb\tVendor\n";
  vendor = codes "Vendor\n";
  first = refl;
  second = refl;
  named = refl;
  mac_fits = refl;
  ip_fits = refl;
}

hostname-LacksNul : LacksNul hostname
hostname-LacksNul = (refl, (refl, (refl, (refl, tt))))

process_line-Scanned_example :
    (s' : Scan records) × (process_line records 0 names (codes "16") line empty ≡ some s')
    × Scanned records 0 line ip mac hostname (codes "16") empty s'
unfolding get_mdb
process_line-Scanned_example =
    process_line-Scanned records records-IsStore 0 names line ip mac hostname (codes "16") empty
      line-IsLine (records-Taken empty.txn sixteen) tt tt

configure_sample :
    configure
      (record { interface = none; mdb_data_dir = []; verbosity = 0 })
      ((b'i', codes "eth0") ∷ [])
    ≡ record { interface = some (codes "eth0"); mdb_data_dir = []; verbosity = 0 }
unfolding configure set_option
configure_sample = refl

abbrev opened : Prepared
opened = record { status = 0; env_open = true; txn_open = true }

first_scan_runs :
    (t : Bytes → Lookup) × (scan records 0 names ((codes "16", line) ∷ []) (λ k. not_found) opened
      ≡ some (
        codes "New IP: 10.0.0.1 (Hostname=host)\nNew MAC: aa:bb (Hostname=host)\n"
            ++ codes "Notice: 2 new items detected\nNo changes detected\n",
        t,
        record { status = 0; env_open = false; txn_open = false },
      ))
unfolding scan process_lines process_line strtok skip_tabs until_tab check_item store_item get_mdb
    put_mdb c_string str_eq summary close_mdb decimal decimal_loop
first_scan_runs = (_, refl)

line-IsHost : IsHost names (λ a. hostname) line ip mac
unfolding contains is_prefix
line-IsHost = record {
  is_line = line-IsLine;
  same = refl;
  ip_address = record { plain = refl; bare = refl };
  mac_address = record { plain = refl; bare = refl };
  name_lacks = hostname-LacksNul;
}

nothing-IsFine : IsFine records (λ k. not_found)
unfolding get_mdb
nothing-IsFine a h = tt

scan_again_example :
    (printed : Bytes) × (t1 t2 : Bytes → Lookup) × (scan records 1 names
        ((codes "16", line) ∷ [])
        (λ k. not_found)
        opened
      ≡ some (printed, t1, close_mdb opened))
    × (scan records 0 names ((codes "17", line) ∷ []) t1 opened
        ≡ some (codes "No new items detected\nNo changes detected\n", t2, close_mdb opened))
scan_again_example =
    scan_again names (λ a. hostname) records records-IsStore 1 ((codes "16", line) ∷ [])
      ((codes "17", line) ∷ []) ((ip, mac) ∷ []) (λ k. not_found) opened opened (line-IsHost, tt)
      (line-IsHost, tt)
      (records-Taken (λ k. not_found)
        (scan_puts (λ a. hostname) ((codes "16", line) ∷ []) ((ip, mac) ∷ [])
          ++ scan_puts (λ a. hostname) ((codes "17", line) ∷ []) ((ip, mac) ∷ [])))
      nothing-IsFine

abbrev defaults : sntools.ArpHistory.Config
defaults = record { query = none; mdb_data_dir = []; output_format = 0 }

process_line-last_seen_example :
    (s1 : Scan records) × (process_line records 0 names (codes "16") line empty ≡ some s1)
    × (output records s1.txn (λ ts. codes "day") (record defaults { query = some ip })
        ≡ some (codes "Last seen at: 16\n" ∷ []))
    × (output records s1.txn (λ ts. codes "day") (record defaults { query = some mac })
        ≡ some (codes "Last seen at: 16\n" ∷ []))
unfolding get_mdb
process_line-last_seen_example =
    process_line-last_seen records records-IsStore 0 (λ ts. codes "day") names line ip mac hostname
      (codes "16") empty defaults line-IsLine (refl, (refl, tt)) (records-Taken empty.txn sixteen)
      tt tt
