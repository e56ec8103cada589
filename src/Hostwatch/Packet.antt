-- ===== src/Hostwatch/Packet.antt =====
-- One line of tcpdump: `main`'s loop of src/hostwatch.c. Pointers into `line` are offsets.
use sntools.Base.{
  ℕ, suc, ◌+◌, Bool, Option, none, some, if◌then◌else◌, take, drop, ltb, ℤ, pos, sub_ℕ, ltb_ℤ,
  to_ulong, Bytes, codes, atoi, find, find_last, copy_n,
}

-- The variables of hostwatch that `configure` sets.
pub record Config : Type 0 where
  pub interface : Option Bytes
  pub verbosity : ℕ
  pub print_max_items : ℤ
  pub ignore_direction : Bool
  pub strip_port_above : ℤ
  pub human_readable : Bool
  pub timespan_seconds : ℤ
  pub server_ip : Option Bytes
  pub server_port : ℤ

-- `strip_port`: the text from the last dot on goes if the number behind it is above the limit.
unfoldable pub strip_port : ℤ → Bytes → Bytes
strip_port above address = elim (find_last b'.' address) [
  | none ↦ address
  | some p ↦ if ltb_ℤ above (atoi (drop (suc p) address)) then take p address else address
]

-- The two addresses and the number of bytes.
pub record Packet : Type 0 where
  pub from_address : Bytes
  pub to_address : Bytes
  pub bytes : ℕ

-- `p3`, relative to `p2`: behind `length `, or behind the last `(` of an IPv6 line.
unfoldable pub find_length : Bytes → Option ℕ
find_length s = elim (find (codes "length ") s) [
  | some i ↦ some (i + 7)
  | none ↦ elim (find_last b'(' s) [ some i ↦ some (i + 1) | none ↦ none ]
]

-- The line is no packet, or one that overflows `fromAddress[64]` or `toAddress[64]`, or a packet.
pub data Scan : Type 0 where
  ignored : Scan
  overflow : Scan
  packet : Packet → Scan

-- The second blank before `p1`, as an offset.
unfoldable pub find_start : Bytes → ℕ → Option ℕ
find_start line p1 = elim (find (codes " ") line) [
  | none ↦ none
  | some i ↦ elim (find (codes " ") (drop (i + 1) line)) [
    | none ↦ none
    | some j ↦ if ltb (i + 1 + j) p1 then some (i + 1 + j) else none
  ]
]

abbrev pub stripped : ℤ → Bytes → Bytes
stripped above address = if ltb_ℤ (pos 0) above then strip_port above address else address

-- The copies of the two addresses, and the number at `p3`.
unfoldable pub copy_packet : ℤ → Bytes → (p0 p1 p2 p3 : ℕ) → Scan
copy_packet above line p0 p1 p2 p3 = elim (copy_n 64 (sub_ℕ p1 (p0 + 1)) (drop (p0 + 1) line)) [
  | none ↦ overflow
  | some a ↦ elim (copy_n 64 (sub_ℕ p2 (p1 + 3)) (drop (p1 + 3) line)) [
    | none ↦ overflow
    | some b ↦ packet (record {
      from_address = stripped above a;
      to_address = stripped above b;
      bytes = to_ulong (atoi (drop p3 line));
    })
  ]
]

unfoldable pub scan : ℤ → Bytes → Scan
scan above line = elim (find (codes " > ") line) [
  | none ↦ ignored
  | some p1 ↦ elim (find (codes ": ") (drop p1 line)) [
    | none ↦ ignored
    | some d2 ↦ elim (find_start line p1) [
      | none ↦ ignored
      | some p0 ↦ elim (find_length (drop (p1 + d2) line)) [
        | none ↦ ignored
        | some d3 ↦ copy_packet above line p0 p1 (p1 + d2) (p1 + d2 + d3)
      ]
    ]
  ]
]
