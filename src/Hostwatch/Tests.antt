-- ===== src/Hostwatch/Tests.antt =====
-- Two lines of tcpdump, and the theorems on small tables.
use mathlib.Core.List.{Perm}
use sntools.Base.{
  All, ℕ, ◌%◌, ◌≡◌, refl, if◌then◌else◌, ◌==◌, true, none, some, List, [], ◌∷◌, ◌++◌, map, arith,
  length, take, get_elem?, pos, ◌-ℤ◌, two_64, Bytes, codes, str_eq, is_prefix, find, find_last,
  digits, atoi, copy_n, decimal, contains, contains-Lacks,
}
use sntools.Memory.{item, Heap}
use sntools.LinkedItems.Chain.{Cells, Chain}
use sntools.Hostwatch.Watch.{Watch, Event, line_read, request, run}
use sntools.Hostwatch.Seen.{seen}
use sntools.Hostwatch.Fits.{IsShort, run-AllShort}
use sntools.Hostwatch.Traffic.{logged}
use sntools.Hostwatch.Reported.{traffic_line, run-reported}
use sntools.Hostwatch.Line.{Line, printed, IsLine, scan-printed}
use sntools.Hostwatch.Run.{run-IsTable}
use sntools.Hostwatch.{ByteCount, HostData, find_item, cleanup_host_data}
use sntools.Hostwatch.Window.{IsItem, traffic}
use sntools.Pairs.{concat-AtMostOnce}
use sntools.Hostwatch.Keys.{AtMostOnce, IsTable}
use sntools.Hostwatch.Sorted.{Descending}
use sntools.Hostwatch.Packet.{
  Config, Packet, ignored, packet, find_length, find_start, strip_port, copy_packet, scan,
}
use sntools.Hostwatch.Output.{
  units, readable_bytes, row, head_line, titles, create_out, defaults, set_option, configure,
}
use sntools.Hostwatch.Report.{IsUnit, readable_bytes-IsUnit, create_out-first}

abbrev ip4_line : Bytes
ip4_line =
    codes
      "16:59:04.793423 IP 192.168.1.25.443 > 192.168.1.140.48246: Flags [P.], seq 241:544, length 303\n"

abbrev ip4_packet : Packet
ip4_packet = record {
  from_address = codes "192.168.1.25.443";
  to_address = codes "192.168.1.140";
  bytes = 303;
}

scan_ip4 : scan (pos 1024) ip4_line ≡ packet ip4_packet
unfolding scan find find_start find_length copy_packet copy_n strip_port find_last atoi
scan_ip4 = refl

scan_nothing : scan (pos 1024) (codes "listening on eth0\n") ≡ ignored
unfolding scan find
scan_nothing = refl

abbrev counted : ℕ → ℕ → ByteCount
counted t n = record { ts = pos t; bytes = n }

abbrev old_item : HostData
old_item = record {
  host_a = codes "a";
  host_b = codes "b";
  byte_count = counted 10 7 ∷ counted 20 5 ∷ [];
  byte_sum = 12;
}

old_item-IsItem : IsItem (pos 20) old_item
unfolding traffic
old_item-IsItem = record {
  ordered = (omega arith, (omega arith, tt), (omega arith, tt, tt));
  summed = refl;
}

abbrev busy_item : HostData
busy_item = record {
  host_a = codes "c";
  host_b = codes "d";
  byte_count = counted 20 90 ∷ [];
  byte_sum = 90;
}

busy_item-IsItem : IsItem (pos 20) busy_item
unfolding traffic
busy_item-IsItem = record { ordered = (omega arith, tt, tt); summed = refl }

one_item-AtMostOnce : AtMostOnce (old_item ∷ [])
one_item-AtMostOnce a b = ground arith

two_items-IsTable : IsTable (pos 20) (old_item ∷ busy_item ∷ [])
unfolding find_item str_eq
two_items-IsTable = record {
  unique =
      concat-AtMostOnce (λ item. item.host_a) (λ item. item.host_b) (old_item ∷ []) busy_item refl
        one_item-AtMostOnce;
  items_ok = (old_item-IsItem, (busy_item-IsItem, tt));
}

abbrev item_heap : Heap HostData
item_heap p =
    if p == 1 then some (item 0 2 old_item) else if p == 2 then some (item 1 0 busy_item) else none

abbrev item_cells : Cells HostData
item_cells = (1, old_item) ∷ (2, busy_item) ∷ []

item_heap-Chain : Chain item_heap item_cells
item_heap-Chain = record {
  back = tt;
  forth = (refl, (refl, tt));
  before_ok = tt;
  after_ok = (refl, refl, (refl, refl, tt));
  apart = tt;
}

-- Stands for `%.2f`: the whole part.
abbrev whole_part : ℕ → ℕ → Bytes
whole_part n i = decimal n

abbrev events : List Event
events =
    line_read (pos 26) (pos 26) ip4_line
    ∷ request (pos 27)
    ∷ line_read (pos 30) (pos 31) ip4_line
    ∷ []

run-IsTable_example :
    (end : Watch) × (run
        (λ n. n)
        whole_part
        (λ t. codes "noon\n")
        defaults
        events
        (record { items = old_item ∷ busy_item ∷ []; last_print_data = pos 0 })
      ≡ some end)
    × IsTable (pos 31) end.items
unfolding scan find is_prefix find_start find_length copy_packet copy_n strip_port find_last atoi
    digits
run-IsTable_example =
    run-IsTable (λ n. n) whole_part (λ t. codes "noon\n") defaults (pos 20) (pos 31) events
      (record { items = old_item ∷ busy_item ∷ []; last_print_data = pos 0 })
      (omega arith, omega arith, (omega arith, (omega arith, omega arith, refl)))
      (cc, (tt, (cc, tt))) two_items-IsTable

-- With `-x`.
abbrev both_ways : Config
both_ways = record defaults { ignore_direction = true }

run-reported_example :
    (end : Watch) × (run
        (λ n. n)
        whole_part
        (λ t. codes "noon\n")
        both_ways
        events
        (record { items = []; last_print_data = pos 0 })
      ≡ some end)
    × ((table : List HostData) × (lines : List Bytes) × (create_out
            (λ n. n)
            whole_part
            (λ t. codes "noon\n")
            both_ways
            (pos 31)
            end.items
          ≡ (
            table,
            some (
                head_line (λ n. n) whole_part (λ t. codes "noon\n") both_ways (pos 31)
                  ∷ codes "\n"
                  ∷ titles
                  ∷ lines
                ++ codes "\n" ∷ (codes "Count: " ++ decimal (length table) ++ codes "\n") ∷ []),
          ))
        × (map
              (λ item.
                traffic_line
                  (λ n. n)
                  whole_part
                  both_ways
                  item
                  (logged both_ways (pos 31 -ℤ pos 3600) item.host_a item.host_b events % two_64))
              (take 20 table)
            ≡ map some lines)
        × Descending table
        × All
            (λ item.
              item.byte_sum
              ≡ logged both_ways (pos 31 -ℤ pos 3600) item.host_a item.host_b events % two_64)
            table
        × ((a b : Bytes)
            → seen true (pos 31 -ℤ pos 3600) a b table
              ≡ logged both_ways (pos 31 -ℤ pos 3600) a b events))
unfolding scan find is_prefix find_start find_length copy_packet copy_n strip_port find_last atoi
    digits
run-reported_example =
    run-reported (λ n. n) whole_part (λ t. codes "noon\n") (λ n h. omega arith) both_ways (pos 20)
      (pos 31) events (pos 0)
      (omega arith, omega arith, (omega arith, (omega arith, omega arith, refl)))
      (cc, (tt, (cc, tt)))

-- Stands for `%.2f` of a number that fits.
abbrev short_part : ℕ → ℕ → Bytes
short_part n i = codes "1.50"

run-AllShort_example :
    (end : Watch) × (run
        (λ n. n)
        short_part
        (λ t. codes "noon\n")
        defaults
        events
        (record { items = []; last_print_data = pos 0 })
      ≡ some end)
    × ((lines : List Bytes) × ((create_out
            (λ n. n)
            short_part
            (λ t. codes "noon\n")
            defaults
            (pos 32)
            end.items).1
          ≡ some lines)
        × All IsShort lines)
unfolding scan find is_prefix find_start find_length copy_packet copy_n strip_port find_last atoi
    digits
run-AllShort_example =
    run-AllShort (λ n. n) short_part (λ t. codes "noon\n") (λ n h. omega arith) (λ n i. omega arith)
      (λ t. omega arith) defaults (pos 20) (pos 31) (pos 32) events (pos 0)
      (omega arith, omega arith, (omega arith, (omega arith, omega arith, refl))) (omega arith)
      (cc, (tt, (cc, tt)))

readable_bytes-IsUnit_example :
    (i : ℕ) × (u : Bytes) × IsUnit 5000 i
    × (get_elem? units i ≡ some u)
    × (readable_bytes (λ n. n) whole_part 5000 ≡ some (whole_part 5000 i ++ codes " " ++ u))
readable_bytes-IsUnit_example = readable_bytes-IsUnit (λ n. n) whole_part 5000 (omega arith)

create_out-first_example :
    (table : List HostData) × (lines : List Bytes) × (create_out
        (λ n. n)
        whole_part
        (λ t. codes "noon\n")
        defaults
        (pos 20)
        (old_item ∷ busy_item ∷ [])
      ≡ (
        table,
        some (
            head_line (λ n. n) whole_part (λ t. codes "noon\n") defaults (pos 20)
              ∷ codes "\n"
              ∷ titles
              ∷ lines
            ++ codes "\n" ∷ (codes "Count: " ++ decimal (length table) ++ codes "\n") ∷ []),
      ))
    × (map (row (λ n. n) whole_part defaults) (take 20 table) ≡ map some lines)
    × Descending table
    × Perm table (cleanup_host_data (old_item ∷ busy_item ∷ []) (pos 20 -ℤ pos 3600))
create_out-first_example =
    create_out-first (λ n. n) whole_part defaults (λ n h. omega arith) (λ t. codes "noon\n")
      (pos 20) (old_item ∷ busy_item ∷ []) (two_items-IsTable.items_ok)

configure_sample :
    configure defaults ((b'm', codes "80") ∷ (b'x', []) ∷ [])
    ≡ record defaults { strip_port_above = pos 80; ignore_direction = true }
unfolding configure set_option atoi
configure_sample = refl

abbrev parts : Line
parts = record {
  time = codes "16:59:04";
  proto = codes "IP";
  from = codes "10.0.0.1.443";
  to = codes "10.0.0.2.50000";
  info = codes "Flags [P.], ";
  bytes = 303;
  rest = codes "\n";
}

parts-IsLine : IsLine parts
unfolding contains
parts-IsLine = record {
  time_word = contains-Lacks 32 parts.time refl;
  proto_word = contains-Lacks 32 parts.proto refl;
  to_word = contains-Lacks 32 parts.to refl;
  lead_clean = contains-Lacks b'>' (codes "16:59:04 IP 10.0.0.1.443") refl;
  info_clean = contains-Lacks b'h' parts.info refl;
  from_fits = omega arith;
  to_fits = omega arith;
  bytes_fit = omega arith;
  rest_clean = refl;
}

scan-printed_example :
    scan (pos 0) (printed parts)
    ≡ packet (record {
      from_address = codes "10.0.0.1.443";
      to_address = codes "10.0.0.2.50000";
      bytes = 303;
    })
scan-printed_example = scan-printed parts parts-IsLine (pos 0)
