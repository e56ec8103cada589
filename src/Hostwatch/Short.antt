-- ===== src/Hostwatch/Short.antt =====
-- The addresses in the table fit the buffers of a report.
use sntools.Base.{
  ℕ, zero, suc, ◌+◌, ◌<◌, Bool, none, List, [], ◌∷◌, inl, inr, arith, Bool-cases, Option-cases,
  if◌then◌else◌, drop, length, modify, ℤ, pos, sub_ℕ, ltb_ℤ, Bytes, codes, find, find_last, copy_n,
  copy_n-length, length-take, atoi, All, All-append,
}
use sntools.Hostwatch.{
  HostData, find_item, create_item, select_item, count_packet, update, update_bytes_sum, add_bytes,
  remove_byte_count_before,
}
use sntools.Hostwatch.Packet.{
  Scan, ignored, overflow, packet, strip_port, stripped, find_start, find_length, copy_packet, scan,
}

-- The two names of an item are shorter than the buffers that they were read into.
abbrev pub NamesFit : Bytes → Bytes → Type 0
NamesFit a b = (length a < 64) × (length b < 64)

abbrev pub ItemFits : HostData → Type 0
ItemFits item = NamesFit item.host_a item.host_b

abbrev pub ScanFits : Scan → Type 0
ScanFits ignored = Unit
ScanFits overflow = Unit
ScanFits (packet p) = NamesFit p.from_address p.to_address

stripped_short : (above : ℤ) (a : Bytes) → length a < 64 → length (stripped above a) < 64
unfolding strip_port
stripped_short above a h = elim (Bool-cases (ltb_ℤ (pos 0) above)) [
  | inr e ↦ rw e h
  | inl e ↦ elim (Option-cases (find_last b'.' a)) [
    | inl f ↦ rw (e, f, strip_port) h
    | inr (p, f) ↦ elim (Bool-cases (ltb_ℤ above (atoi (drop (suc p) a)))) [
      | inl g ↦ rw (e, f, strip_port, g) (omega (arith, (length-take p a).1))
      | inr g ↦ rw (e, f, strip_port, g) h
    ]
  ]
]

copy_packet-ScanFits :
    (above : ℤ) (line : Bytes) (p0 p1 p2 p3 : ℕ) → ScanFits (copy_packet above line p0 p1 p2 p3)
unfolding copy_packet
copy_packet-ScanFits above line p0 p1 p2 p3 =
    elim (Option-cases (copy_n 64 (sub_ℕ p1 (p0 + 1)) (drop (p0 + 1) line))) [
      | inl e ↦ rw (e, copy_packet) tt
      | inr (a, e) ↦ elim (Option-cases (copy_n 64 (sub_ℕ p2 (p1 + 3)) (drop (p1 + 3) line))) [
        | inl f ↦ rw (e, copy_packet, f) tt
        | inr (b, f) ↦
            rw (e, copy_packet, f)
              (
                stripped_short above a
                    (copy_n-length 64 (sub_ℕ p1 (p0 + 1)) (drop (p0 + 1) line) a e),
                stripped_short above b
                    (copy_n-length 64 (sub_ℕ p2 (p1 + 3)) (drop (p1 + 3) line) b f),
              )
      ]
    ]

pub scan-ScanFits : (above : ℤ) (line : Bytes) → ScanFits (scan above line)
unfolding scan
scan-ScanFits above line = elim (Option-cases (find (codes " > ") line)) [
  | inl e ↦ rw (e, scan) tt
  | inr (p1, e) ↦ elim (Option-cases (find (codes ": ") (drop p1 line))) [
    | inl f ↦ rw (e, scan, f) tt
    | inr (d2, f) ↦ elim (Option-cases (find_start line p1)) [
      | inl g ↦ rw (e, scan, f, g) tt
      | inr (p0, g) ↦ elim (Option-cases (find_length (drop (p1 + d2) line))) [
        | inl h ↦ rw (e, scan, f, g, h) tt
        | inr (d3, h) ↦
            rw (e, scan, f, g, h) (copy_packet-ScanFits above line p0 p1 (p1 + d2) (p1 + d2 + d3))
      ]
    ]
  ]
]

modify-ItemFits :
    (timespan now : ℤ) (bytes i : ℕ) (items : List HostData)
    → All ItemFits items
    → All ItemFits (modify i (count_packet timespan now bytes) items)
unfolding count_packet update_bytes_sum add_bytes remove_byte_count_before
modify-ItemFits timespan now bytes i [] h = tt
modify-ItemFits timespan now bytes zero (x ∷ items) (h, hs) = (h, hs)
modify-ItemFits timespan now bytes (suc i) (x ∷ items) (h, hs) =
    (h, modify-ItemFits timespan now bytes i items hs)

pub update-ItemFits :
    (dir : Bool) (timespan now : ℤ) (a b : Bytes) (bytes : ℕ) (items : List HostData)
    → NamesFit a b
    → All ItemFits items
    → All ItemFits (update dir timespan now a b bytes items)
unfolding update select_item create_item
update-ItemFits dir timespan now a b bytes items n h = elim (Option-cases (find_item items a b)) [
  | inr (i, e) ↦ rw (e, select_item) (modify-ItemFits timespan now bytes i items h)
  | inl e ↦ elim (Option-cases (if dir then find_item items b a else none)) [
    | inr (i, f) ↦ rw (e, select_item, f) (modify-ItemFits timespan now bytes i items h)
    | inl f ↦
        rw (e, select_item, f)
          (modify-ItemFits timespan now bytes (length items) _ (
            All-append ItemFits items
              (record { host_a = a; host_b = b; byte_count = []; byte_sum = 0 } ∷ []) h (n, tt)))
  ]
]
