-- ===== src/Hostwatch/Line.antt =====
-- `main` reads back a line of tcpdump: the packet is the one that the line is printed from.
use sntools.Base.{
  ℕ, suc, ◌+◌, ◌^◌, ◌<◌, ◌≡◌, refl, sym, ap, ◌∙◌, true, some, [], ◌∷◌, ◌++◌, append_assoc, arith,
  if◌then◌else◌, length, length-append, drop, ltb, ℤ, pos, sub_ℕ, to_ulong, Bytes, codes, atoi,
  find, copy_n-append, decimal, Lacks, find-append, drop-append, drop-past, sub_ℕ-add, take-append,
  NoDigit, atoi-decimal, decimal-Lacks, find_last-append, append-nil, ltb_ℤ,
}
use sntools.Hostwatch.Packet.{
  packet, stripped, strip_port, find_start, find_length, copy_packet, scan,
}

-- The parts of a line, as `16:59:04.7 IP 10.0.0.1.443 > 10.0.0.2.5000: Flags [P.], length 303`.
pub record Line : Type 0 where
  pub time : Bytes
  pub proto : Bytes
  pub from : Bytes
  pub to : Bytes
  pub info : Bytes
  pub bytes : ℕ
  pub rest : Bytes

abbrev blank : ℕ
blank = 32

-- The text up to ` > `, and the text behind it.
abbrev lead : Line → Bytes
lead l = l.time ++ blank ∷ (l.proto ++ blank ∷ l.from)

abbrev count_text : Line → Bytes
count_text l = decimal l.bytes ++ l.rest

abbrev details : Line → Bytes
details l = codes ": " ++ (l.info ++ (codes "length " ++ count_text l))

abbrev pub printed : Line → Bytes
printed l = lead l ++ (codes " > " ++ (l.to ++ details l))

-- What the texts lack, and what fits.
pub record IsLine (l : Line) : Type 0 where
  pub time_word : Lacks blank l.time
  pub proto_word : Lacks blank l.proto
  pub to_word : Lacks blank l.to
  pub lead_clean : Lacks b'>' (lead l)
  pub info_clean : Lacks b'h' l.info
  pub from_fits : length l.from < 64
  pub to_fits : length l.to < 64
  pub bytes_fit : l.bytes < 2 ^ 31
  pub rest_clean : NoDigit l.rest

find_start-lead :
    (time proto behind : Bytes) (p1 : ℕ)
    → Lacks blank time
    → Lacks blank proto
    → length time + 1 + length proto < p1
    → find_start (time ++ blank ∷ (proto ++ blank ∷ behind)) p1
      ≡ some (length time + 1 + length proto)
unfolding find_start
find_start-lead time proto behind p1 h k less =
    let first = find-append [] [] blank time (proto ++ blank ∷ behind) tt h in
    let behind_time : drop (length time + 1) (time ++ blank ∷ (proto ++ blank ∷ behind))
        ≡ proto ++ blank ∷ behind =
      drop-past time (blank ∷ (proto ++ blank ∷ behind)) 1 (length time + 1) refl in
    let second = find-append [] [] blank proto behind tt k in
    let t : ltb (length time + 1 + length proto) p1 ≡ true = ground arith in
    rw (first, find_start, behind_time, second, t) refl

copy_packet-parts :
    (above : ℤ) (line from to x y z : Bytes) (p0 p1 p2 p3 n : ℕ)
    → drop (p0 + 1) line ≡ from ++ x
    → drop (p1 + 3) line ≡ to ++ y
    → drop p3 line ≡ decimal n ++ z
    → p1 ≡ p0 + 1 + length from
    → p2 ≡ p1 + 3 + length to
    → length from < 64
    → length to < 64
    → n < 2 ^ 31
    → NoDigit z
    → copy_packet above line p0 p1 p2 p3
      ≡ packet
          (record { from_address = stripped above from; to_address = stripped above to; bytes = n })
unfolding copy_packet
copy_packet-parts above line from to x y z p0 p1 p2 p3 n a b c e f g h k m =
    let from_size : sub_ℕ p1 (p0 + 1) ≡ pos (length from) = sub_ℕ-add p1 (p0 + 1) (length from) e in
    let to_size : sub_ℕ p2 (p1 + 3) ≡ pos (length to) = sub_ℕ-add p2 (p1 + 3) (length to) f in
    let number : to_ulong (pos n) ≡ n = omega arith in
    rw
      (
        from_size,
        a,
        copy_n-append 64 from x g,
        copy_packet,
        to_size,
        b,
        copy_n-append 64 to y h,
        c,
        atoi-decimal n z (omega arith) m,
        number,
      )
      refl

scan-found :
    (above : ℤ) (line : Bytes) (p0 p1 d2 d3 : ℕ)
    → find (codes " > ") line ≡ some p1
    → find (codes ": ") (drop p1 line) ≡ some d2
    → find_start line p1 ≡ some p0
    → find_length (drop (p1 + d2) line) ≡ some d3
    → scan above line ≡ copy_packet above line p0 p1 (p1 + d2) (p1 + d2 + d3)
unfolding scan
scan-found above line p0 p1 d2 d3 e f g h = rw (e, scan, f, g, h) refl

module _ (l : Line) (h : IsLine l) where
  abbrev tail : Bytes
  tail = codes " > " ++ (l.to ++ details l)

  abbrev p1 : ℕ
  p1 = length (lead l)

  from_first : printed l ≡ l.time ++ blank ∷ (l.proto ++ blank ∷ (l.from ++ tail))
  from_first =
      append_assoc l.time (blank ∷ (l.proto ++ blank ∷ l.from)) tail
      ∙ ap (λ t. l.time ++ blank ∷ t) (append_assoc l.proto (blank ∷ l.from) tail)

  length-lead : p1 ≡ length l.time + 1 + length l.proto + 1 + length l.from
  length-lead = omega (
    arith,
    length-append l.time (blank ∷ (l.proto ++ blank ∷ l.from)),
    length-append l.proto (blank ∷ l.from),
  )

  find_arrow : find (codes " > ") (printed l) ≡ some p1
  find_arrow =
      find-append (blank ∷ []) (blank ∷ []) b'>' (lead l) (l.to ++ details l) (refl, tt)
        h.lead_clean

  find_colon : find (codes ": ") tail ≡ some (3 + length l.to)
  unfolding find
  find_colon =
      let here =
        find-append (b':' ∷ []) [] blank l.to (l.info ++ (codes "length " ++ count_text l))
          (refl, tt) h.to_word in
      rw here (ap some (omega arith))

  find_length-details : find_length (details l) ≡ some (2 + length l.info + 7)
  unfolding find_length find
  find_length-details =
      let here =
        find-append (codes "lengt") (blank ∷ []) b'h' l.info (count_text l)
          (refl, (refl, (refl, (refl, (refl, tt))))) h.info_clean in
      rw (find_length, here) (ap some (omega arith))

  -- The text at each of the three pointers behind `p0`.
  abbrev p2 : ℕ
  p2 = p1 + (3 + length l.to)

  abbrev p3 : ℕ
  p3 = p2 + (2 + length l.info + 7)

  at_details : drop p2 (printed l) ≡ details l
  at_details =
      drop-past (lead l) tail (3 + length l.to) p2 refl
      ∙ drop-past (codes " > " ++ l.to) (details l) 0 (3 + length l.to) (omega arith)

  at_count : drop p3 (printed l) ≡ count_text l
  at_count =
      let d3 = 2 + length l.info + 7 in
      drop-past (lead l) tail (3 + length l.to + d3) p3 (omega arith)
      ∙ drop-past (codes " > " ++ l.to) (details l) d3 (3 + length l.to + d3) (omega arith)
      ∙ drop-past (codes ": " ++ l.info) (codes "length " ++ count_text l) 7 d3 (omega arith)

  at_to : drop (p1 + 3) (printed l) ≡ l.to ++ details l
  at_to = drop-past (lead l) tail 3 (p1 + 3) refl

  abbrev p0 : ℕ
  p0 = length l.time + 1 + length l.proto

  at_from : drop (p0 + 1) (printed l) ≡ l.from ++ tail
  at_from =
      ap (drop (p0 + 1)) from_first
      ∙ drop-past l.time (blank ∷ (l.proto ++ blank ∷ (l.from ++ tail))) (1 + length l.proto + 1)
          (p0 + 1) (omega arith)
      ∙ drop-past (blank ∷ l.proto) (blank ∷ (l.from ++ tail)) 1 (1 + length l.proto + 1)
          (omega arith)

  -- A line of tcpdump is scanned as the packet that it was printed from: its two addresses, without
  -- their ports as the limit says, and its length. The time, the protocol and the second address are
  -- words, no `>` stands before the arrow and no `h` before `length`, the addresses are shorter than 64
  -- bytes, and the length is below 2 ^ 31.
  pub scan-printed :
      (above : ℤ)
      → scan above (printed l)
        ≡ packet (record {
          from_address = stripped above l.from;
          to_address = stripped above l.to;
          bytes = l.bytes;
        })
  scan-printed above =
      let colon : find (codes ": ") (drop p1 (printed l)) ≡ some (3 + length l.to) =
        ap (find (codes ": ")) (drop-append (lead l) tail) ∙ find_colon in
      let start : find_start (printed l) p1 ≡ some p0 =
        ap (λ t. find_start t p1) from_first
        ∙ find_start-lead l.time l.proto (l.from ++ tail) p1 h.time_word h.proto_word
            (omega (arith, length-lead)) in
      let len : find_length (drop p2 (printed l)) ≡ some (2 + length l.info + 7) =
        ap find_length at_details ∙ find_length-details in
      scan-found above (printed l) p0 p1 (3 + length l.to) (2 + length l.info + 7) find_arrow colon
        start len
      ∙ (copy_packet-parts above (printed l) l.from l.to tail (details l) l.rest p0 p1 p2 p3 l.bytes
          at_from at_to at_count (omega (arith, length-lead)) (omega arith) h.from_fits h.to_fits
          h.bytes_fit h.rest_clean)

-- The port behind the last dot of an address goes if it is above the limit of `-m`, and stays else.
strip_port-decimal :
    (above : ℤ) (host : Bytes) (port : ℕ)
    → port < 2 ^ 31
    → strip_port above (host ++ b'.' ∷ decimal port)
      ≡ (if ltb_ℤ above (pos port) then host else host ++ b'.' ∷ decimal port)
unfolding strip_port
strip_port-decimal above host port h =
    let number : atoi (drop (suc (length host)) (host ++ b'.' ∷ decimal port)) ≡ pos port =
      ap atoi (
        drop-past host (b'.' ∷ decimal port) 1 (suc (length host)) (omega arith)
        ∙ sym (append-nil (decimal port)))
      ∙ atoi-decimal port [] (omega arith) tt in
    rw
      (
        find_last-append b'.' host (decimal port) (decimal-Lacks b'.' port refl),
        strip_port,
        number,
        take-append host (b'.' ∷ decimal port),
      )
      refl
