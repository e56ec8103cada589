-- ===== src/Snort/Short.antt =====
-- What is read from a line of snort fits the lines of the report, if the message does.
use sntools.Base.{
  ℕ, zero, suc, ◌+◌, ◌^◌, ◌≤◌, ◌<◌, ◌-◌, ◌≡◌, refl, Bool, true, false, some, List, [], ◌∷◌, ◌++◌,
  inl, inr, arith, Bool-cases, Option-cases, if◌then◌else◌, take, drop, length, length-append,
  length-take, ℤ, sub_ℕ, pos_part, ltb, Bytes, codes, find, find_last, copy_n, copy_n-length,
  decimal, decimal_ℤ, length-decimal, length-decimal_ℤ, All, All-append,
}
use sntools.Snort.{EventData, AlertData, two_32, sum_hits}
use sntools.Snort.Alert.{Config, Scan, ignored, overflow, alert, strip_port, copy_alert, scan}
use mathlib.Core.Path.{subst}
use sntools.Snort.Heard.{latest}
use sntools.Snort.Output.{out_size, as_int, item_lines, count_line, head_line, create_out}
use sntools.Snort.Report.{
  all_short, item_report, item_lines-report, lines_of, report, create_out-report,
}

-- What fits the buffers that a line is read into.
abbrev pub PartsFit : AlertData → Type 0
PartsFit a = (length a.proto < 10) × (length a.source < 128) × (length a.target < 128)

-- A message that fits a line of the report, with the tab before and the line end behind it.
abbrev pub MessageFits : AlertData → Type 0
MessageFits a = length a.message + 2 < out_size

abbrev pub AlertFits : AlertData → Type 0
AlertFits a = PartsFit a × MessageFits a

-- The line overflows no buffer, also when its message is reported.
abbrev pub ScanFits : Scan → Type 0
ScanFits ignored = Unit
ScanFits overflow = ⊥
ScanFits (alert a) = MessageFits a

abbrev PartsKnown : Scan → Type 0
PartsKnown ignored = Unit
PartsKnown overflow = Unit
PartsKnown (alert a) = PartsFit a

strip_port_short :
    (strip : Bool) (s : Bytes) → length s < 128 → length (if strip then strip_port s else s) < 128
unfolding strip_port
strip_port_short false s h = h
strip_port_short true s h = elim (Option-cases (find_last b':' s)) [
  | inl e ↦ rw (e, strip_port) h
  | inr (p, e) ↦ rw (e, strip_port) (omega (arith, (length-take p s).1))
]

copy_alert-PartsKnown :
    (strip : Bool) (line : Bytes) (p0 p1 p2 : ℕ) → PartsKnown (copy_alert strip line p0 p1 p2)
unfolding copy_alert
copy_alert-PartsKnown strip line p0 p1 p2 =
    elim (Option-cases (copy_n 10 (sub_ℕ p1 (p0 + 1)) (drop (p0 + 1) line))) [
      | inl e ↦ rw (e, copy_alert) tt
      | inr (proto, e) ↦ elim (Option-cases (copy_n 128 (sub_ℕ p2 (p1 + 2)) (drop (p1 + 2) line))) [
        | inl f ↦ rw (e, copy_alert, f) tt
        | inr (src, f) ↦
            elim (Option-cases (copy_n 128 (sub_ℕ (length line) (p2 + 5)) (drop (p2 + 4) line))) [
              | inl g ↦ rw (e, copy_alert, f, g) tt
              | inr (dst, g) ↦ elim (Option-cases (copy_n 1024 (sub_ℕ p0 1) line)) [
                | inl k ↦ rw (e, copy_alert, f, g, k) tt
                | inr (message, k) ↦
                    rw (e, copy_alert, f, g, k)
                      (
                        copy_n-length 10 (sub_ℕ p1 (p0 + 1)) (drop (p0 + 1) line) proto e,
                        strip_port_short strip src
                            (copy_n-length 128 (sub_ℕ p2 (p1 + 2)) (drop (p1 + 2) line) src f),
                        copy_n-length 128 (sub_ℕ (length line) (p2 + 5)) (drop (p2 + 4) line) dst g,
                      )
              ]
            ]
      ]
    ]

pub scan-PartsKnown : (strip : Bool) (line : Bytes) → PartsKnown (scan strip line)
unfolding scan
scan-PartsKnown strip line = elim (Option-cases (find (codes "{") line)) [
  | inl e ↦ rw (e, scan) tt
  | inr (p0, e) ↦ elim (Option-cases (find (codes "}") line)) [
    | inl f ↦ rw (e, scan, f) tt
    | inr (p1, f) ↦ elim (Option-cases (find (codes " -> ") line)) [
      | inl g ↦ rw (e, scan, f, g) tt
      | inr (p2, g) ↦ rw (e, scan, f, g) (copy_alert-PartsKnown strip line p0 p1 p2)
    ]
  ]
]

abbrev pub IsShort : Bytes → Type 0
IsShort line = length line < out_size

all_short-All : (lines : List Bytes) → All IsShort lines → all_short lines ≡ true
unfolding all_short
all_short-All [] h = refl
all_short-All (l ∷ lines) (h, hs) =
    let fits : ltb (length l) out_size ≡ true = ground arith in
    rw (fits, all_short-All lines hs) refl

as_int_short : (n : ℕ) → length (as_int n) ≤ 21
as_int_short n = elim (Bool-cases (ltb n (2 ^ 31))) [
  | inl e ↦ rw e (omega (arith, length-decimal n))
  | inr e ↦ rw e (omega (arith, length-decimal (two_32 - n)))
]

item_lines-IsShort : (d : EventData) → AlertFits (latest d) → All IsShort (item_lines d)
item_lines-IsShort d ((h, k, l), m) =
    let first = d.host_src ++ codes "\t" in
    let second = first ++ d.host_dst in
    let third = second ++ codes "\t(" in
    let fourth = third ++ d.latest_proto in
    let hits = as_int (sum_hits d) in
    (
      omega (
        arith,
        length-append fourth (codes ")\n"),
        length-append third d.latest_proto,
        length-append second (codes "\t("),
        length-append first d.host_dst,
        length-append d.host_src (codes "\t"),
      ),
      (
        omega (
          arith,
          length-append (codes "\tHits: " ++ hits) (codes "\n"),
          length-append (codes "\tHits: ") hits,
          as_int_short (sum_hits d),
        ),
        (omega (arith, length-append (codes "\t" ++ d.latest_message) (codes "\n")), tt),
      ),
    )

lines_of-IsShort :
    (n : ℕ) (items : List EventData)
    → All (λ d. AlertFits (latest d)) items
    → All IsShort (lines_of (take n items))
lines_of-IsShort zero items h = tt
lines_of-IsShort (suc n) [] h = tt
lines_of-IsShort (suc n) (d ∷ items) (h, hs) =
    let short_item : All IsShort (item_report d) =
      subst (λ ls. All IsShort ls) (item_lines-report d) (item_lines-IsShort d h) in
    All-append IsShort (item_report d) (lines_of (take n items)) short_item
      (lines_of-IsShort n items hs)

module _ (time_text : ℤ → Bytes) (time_short : (t : ℤ) → length (time_text t) ≤ 26) where
  pub report-IsShort :
      (c : Config) (now : ℤ) (items : List EventData)
      → All (λ d. AlertFits (latest d)) items
      → All IsShort (report time_text c now items)
  unfolding report
  report-IsShort c now items h =
      let front = codes "Snort scan: timespan=" ++ decimal_ℤ c.timespan_seconds in
      let middle = front ++ codes " sec, current time=" in
      let head_short : IsShort (head_line time_text c now) = omega (
        arith,
        length-append (middle ++ time_text now) (codes "\n"),
        length-append middle (time_text now),
        length-append front (codes " sec, current time="),
        length-append (codes "Snort scan: timespan=") (decimal_ℤ c.timespan_seconds),
        length-decimal_ℤ c.timespan_seconds,
        time_short now,
      ) in
      let count = count_line (length items) in
      let count_short : IsShort count = omega (
        arith,
        length-append (codes "Count: " ++ decimal (length items)) (codes "\n"),
        length-decimal (length items),
      ) in
      let shown = lines_of (take (pos_part c.print_max_items) items) in
      (
        head_short,
        (
          omega arith,
          (
            omega arith,
            All-append IsShort shown (codes "\n" ∷ count ∷ [])
                (lines_of-IsShort (pos_part c.print_max_items) items h)
                (omega arith, (count_short, tt)),
          ),
        ),
      )

  pub create_out_fits :
      (c : Config) (now : ℤ) (items : List EventData)
      → All (λ d. AlertFits (latest d)) items
      → create_out time_text c now items ≡ some (report time_text c now items)
  create_out_fits c now items h =
      rw
        (
          create_out-report time_text c now items,
          all_short-All (report time_text c now items) (report-IsShort c now items h),
        )
        refl
