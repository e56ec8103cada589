-- ===== src/Snort/Alert.antt =====
-- One line of snort's console output: `configure` and the reading in `main` of src/snort-scan-util.c. Pointers
-- into `line` are offsets.
use sntools.Base.{
  ℕ, suc, ◌+◌, Bool, true, false, Option, none, some, [], ◌∷◌, if◌then◌else◌, take, drop, length,
  ◌==◌, ℤ, pos, sub_ℕ, Bytes, codes, atoi, Opts, find, find_last, copy_n,
}
use sntools.Snort.{AlertData}

-- The variables that `configure` sets, and those it leaves.
pub record Config : Type 0 where
  pub interface : Option Bytes
  pub home_network : Option Bytes
  pub print_max_items : ℤ
  pub strip_src_port : Bool
  pub verbosity : ℕ
  pub timespan_seconds : ℤ
  pub server_ip : Option Bytes
  pub server_port : ℤ

abbrev pub defaults : Config
defaults = record {
  interface = none;
  home_network = none;
  print_max_items = pos 20;
  strip_src_port = false;
  verbosity = 0;
  timespan_seconds = pos 3600;
  server_ip = none;
  server_port = pos 8003;
}

-- One option; the messages are left out.
unfoldable pub set_option : Config → ℕ × Bytes → Config
set_option c (option, arg) =
    if option == b'i'
    then record c { interface = some arg }
    else if option == b'h'
    then record c { home_network = some arg }
    else if option == b'm'
    then record c { strip_src_port = true }
    else if option == b's'
    then record c { server_ip = some arg }
    else if option == b'p'
    then record c { server_port = atoi arg }
    else if option == b't'
    then record c { timespan_seconds = atoi arg }
    else if option == b'v'
    then record c { verbosity = suc c.verbosity }
    else c

unfoldable pub configure : Config → Opts → Config
configure c [] = c
configure c (o ∷ os) = configure (set_option c o) os

-- `strip_port`
unfoldable pub strip_port : Bytes → Bytes
strip_port address = elim (find_last b':' address) [ none ↦ address | some p ↦ take p address ]

-- The line is no alert, or one that overflows a buffer, or an alert.
pub data Scan : Type 0 where
  ignored : Scan
  overflow : Scan
  alert : AlertData → Scan

-- `prio`
unfoldable pub find_prio : Bytes → ℤ
find_prio line = elim (find (codes "Priority:") line) [
  | none ↦ pos 99
  | some p3 ↦ atoi (drop (p3 + 9) line)
]

-- The copies into `proto`, `host_src`, `host_dst` and `message`.
unfoldable pub copy_alert : (strip : Bool) → Bytes → (p0 p1 p2 : ℕ) → Scan
copy_alert strip line p0 p1 p2 = elim (copy_n 10 (sub_ℕ p1 (p0 + 1)) (drop (p0 + 1) line)) [
  | none ↦ overflow
  | some proto ↦ elim (copy_n 128 (sub_ℕ p2 (p1 + 2)) (drop (p1 + 2) line)) [
    | none ↦ overflow
    | some src ↦ elim (copy_n 128 (sub_ℕ (length line) (p2 + 5)) (drop (p2 + 4) line)) [
      | none ↦ overflow
      | some dst ↦ elim (copy_n 1024 (sub_ℕ p0 1) line) [
        | none ↦ overflow
        | some message ↦ alert (record {
          proto = proto;
          source = if strip then strip_port src else src;
          target = dst;
          message = message;
          prio = find_prio line;
        })
      ]
    ]
  ]
]

unfoldable pub scan : (strip : Bool) → Bytes → Scan
scan strip line = elim (find (codes "{") line) [
  | none ↦ ignored
  | some p0 ↦ elim (find (codes "}") line) [
    | none ↦ ignored
    | some p1 ↦ elim (find (codes " -> ") line) [
      | none ↦ ignored
      | some p2 ↦ copy_alert strip line p0 p1 p2
    ]
  ]
]
