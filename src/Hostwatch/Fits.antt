-- ===== src/Hostwatch/Fits.antt =====
-- No line of a report overflows the buffer that it is copied into.
use sntools.Base.{
  ℕ, suc, ◌≤◌, ◌<◌, ◌≡◌, refl, sym, ◌&&◌, some, none, Option, List, [], ◌∷◌, ◌++◌, inl, inr, arith,
  Bool-cases, Option-cases, length, length-append, get_elem?, ℤ, pos, ltb, ltb_ℤ, ◌-ℤ◌, Bytes,
  codes, decimal, decimal_ℤ, length-decimal, length-decimal_ℤ, All, All-get_elem?,
}
use sntools.LinkedItems.{exceeds}
use sntools.LinkedItems.Bubble.Map.{All-sort_list}
use sntools.Hostwatch.{
  HostData, compare, cleanup_host_data, update_bytes_sum, remove_byte_count_before, update,
}
use sntools.Hostwatch.Packet.{Config, scan}
use sntools.Hostwatch.Output.{
  units, readable_bytes, unit_loop, sorted_data, bytes_text, row_text, row, rows, head_line,
  create_out, print_data, handle_request,
}
use sntools.Hostwatch.Watch.{
  Watch, Event, line_read, request, print_interval_seconds, without_server, print_if_due, step, run,
}
use sntools.Hostwatch.Run.{InTime, EventFits, Scan-cases, IsTable-older, run-IsTable}
use sntools.Hostwatch.Keys.{IsTable}
use sntools.Hostwatch.Report.{create_out-first}
use sntools.Base.{two_64, ap, ◌≤ℤ◌}
use sntools.Hostwatch.Short.{NamesFit, ItemFits, scan-ScanFits, update-ItemFits}

cleanup_host_data-ItemFits :
    (before : ℤ) (items : List HostData)
    → All ItemFits items
    → All ItemFits (cleanup_host_data items before)
unfolding cleanup_host_data update_bytes_sum remove_byte_count_before
cleanup_host_data-ItemFits before [] h = tt
cleanup_host_data-ItemFits before (x ∷ items) (h, hs) = (
  elim (Bool-cases (ltb 0 (remove_byte_count_before x before).1)) [
    | inl e ↦ rw e h
    | inr e ↦ rw e h
  ],
  cleanup_host_data-ItemFits before items hs,
)

sorted_data-ItemFits :
    (c : Config) (now : ℤ) (items : List HostData)
    → All ItemFits items
    → All ItemFits (sorted_data c now items)
sorted_data-ItemFits c now items h =
    let before = now -ℤ c.timespan_seconds in
    All-sort_list (exceeds compare) ItemFits (cleanup_host_data items before)
      (cleanup_host_data-ItemFits before items h)

-- `out->s` has 512 bytes.
abbrev pub IsShort : Bytes → Type 0
IsShort line = length line < 512

abbrev pub AllShort : Option (List Bytes) → Type 0
AllShort none = Unit
AllShort (some lines) = All IsShort lines

unit_short : (i : ℕ) (u : Bytes) → get_elem? units i ≡ some u → length u ≤ 2
unit_short i u e =
    All-get_elem? (λ u. length u ≤ 2) units i u
      (
        omega arith,
        (
          omega arith,
          (
            omega arith,
            (
              omega arith,
              (omega arith, (omega arith, (omega arith, (omega arith, (omega arith, tt))))),
            ),
          ),
        ),
      )
      e

module _ (to_double : ℕ → ℕ) (two_digits : (n i : ℕ) → Bytes)
    (short : (n i : ℕ) → length (two_digits n i) ≤ 28) where
  bytes_text_short :
      (c : Config) (n : ℕ) (b : Bytes)
      → bytes_text to_double two_digits c n ≡ some b
      → length b ≤ 31
  unfolding readable_bytes
  bytes_text_short c n b e = elim (Bool-cases c.human_readable) [
    | inr f ↦
        let same : decimal n ≡ b = cc (rw f at e) in rw (sym same) (omega (arith, length-decimal n))
    | inl f ↦ elim (Option-cases (unit_loop 10 (to_double n) 0)) [
      | inl g ↦ cc (rw (f, readable_bytes, g) at e)
      | inr (i, g) ↦ elim (Option-cases (get_elem? units i)) [
        | inl k ↦ cc (rw (f, readable_bytes, g, k) at e)
        | inr (u, k) ↦
            let same : two_digits (to_double n) i ++ codes " " ++ u ≡ b =
              cc (rw (f, readable_bytes, g, k) at e) in
            rw (sym same) (
              omega (
                arith,
                short (to_double n) i,
                unit_short i u k,
                length-append (two_digits (to_double n) i ++ codes " ") u,
                length-append (two_digits (to_double n) i) (codes " "),
              ))
      ]
    ]
  ]

  row_text-IsShort :
      (d : HostData) (b : Bytes)
      → ItemFits d
      → length b ≤ 31
      → IsShort (row_text to_double two_digits d b)
  row_text-IsShort d b (h, k) l =
      let first = d.host_a ++ codes "\t" in
      let second = first ++ d.host_b in
      let third = second ++ codes "\t" in
      let fourth = third ++ b in
      let fifth = fourth ++ codes " (" in
      let sixth = fifth ++ decimal (length d.byte_count) in
      omega (
        arith,
        length-append sixth (codes ")\n"),
        length-append fifth (decimal (length d.byte_count)),
        length-append fourth (codes " ("),
        length-append third b,
        length-append second (codes "\t"),
        length-append first d.host_b,
        length-append d.host_a (codes "\t"),
        length-decimal (length d.byte_count),
      )

  rows-AllShort :
      (c : Config) (num : ℕ) (items : List HostData) (rest : List Bytes)
      → All ItemFits items
      → All IsShort rest
      → AllShort (rows to_double two_digits c num items rest)
  unfolding rows row
  rows-AllShort c num [] rest h k = k
  rows-AllShort c num (d ∷ ds) rest (h, hs) k =
      let more = rows-AllShort c (suc num) ds rest hs k in
      elim (Bool-cases (ltb_ℤ (pos num) c.print_max_items)) [
        | inr e ↦ rw e k
        | inl e ↦ elim (Option-cases (bytes_text to_double two_digits c d.byte_sum)) [
          | inl f ↦ rw (e, f) tt
          | inr (b, f) ↦ elim (Option-cases (rows to_double two_digits c (suc num) ds rest)) [
            | inl g ↦ rw (e, f, g) tt
            | inr (lines, g) ↦
                rw (e, f, g)
                  (row_text-IsShort d b h (bytes_text_short c d.byte_sum b f), rw g at more)
          ]
        ]
      ]

module _ (to_double : ℕ → ℕ) (two_digits : (n i : ℕ) → Bytes) (time_text : ℤ → Bytes) where
  print_if_due-ItemFits :
      (c : Config) (now printed : ℤ) (w : Watch)
      → All ItemFits w.items
      → All ItemFits (print_if_due to_double two_digits time_text c now printed w).items
  unfolding print_if_due print_data create_out
  print_if_due-ItemFits c now printed w h =
      elim (Bool-cases
        (without_server c && ltb_ℤ print_interval_seconds (now -ℤ w.last_print_data))) [
          | inl e ↦ rw e (print_data-ItemFits w.items h)
          | inr e ↦ rw e h
        ]
    where
      print_data-ItemFits :
          (items : List HostData)
          → All ItemFits items
          → All ItemFits (print_data to_double two_digits time_text c printed items).0
      print_data-ItemFits [] h = h
      print_data-ItemFits (d ∷ ds) h = sorted_data-ItemFits c printed (d ∷ ds) h

  run-ItemFits :
      (c : Config) (events : List Event) (w : Watch)
      → All (EventFits c) events
      → All ItemFits w.items
      → (end : Watch) × (run to_double two_digits time_text c events w ≡ some end)
        × All ItemFits end.items
  unfolding run step handle_request create_out
  run-ItemFits c [] w f h = (w, refl, h)
  run-ItemFits c (request now ∷ es) w (_, fs) h =
      run-ItemFits c es (record w { items = sorted_data c now w.items }) fs
        (sorted_data-ItemFits c now w.items h)
  run-ItemFits c (line_read now printed line ∷ es) w (f, fs) h =
      elim (Scan-cases (scan c.strip_port_above line) f) [
        | inl e ↦ rw (e, run) (run-ItemFits c es w fs h)
        | inr (p, e) ↦
            let names : NamesFit p.from_address p.to_address =
              rw e at (scan-ScanFits c.strip_port_above line) in
            let new =
              update c.ignore_direction c.timespan_seconds now p.from_address p.to_address p.bytes
                w.items in
            let fits =
              update-ItemFits c.ignore_direction c.timespan_seconds now p.from_address p.to_address
                p.bytes w.items names h in
            let w1 : Watch = record w { items = new } in
            rw (e, run)
              (run-ItemFits c es (print_if_due to_double two_digits time_text c now printed w1) fs
                (print_if_due-ItemFits c now printed w1 fits))
      ]

  module _ (widened : (n : ℕ) → n < two_64 → to_double n ≤ two_64)
      (short : (n i : ℕ) → length (two_digits n i) ≤ 28)
      (time_short : (t : ℤ) → length (time_text t) ≤ 26) where
    create_out-AllShort :
        (c : Config) (now : ℤ) (items : List HostData)
        → All ItemFits items
        → AllShort (create_out to_double two_digits time_text c now items).1
    unfolding create_out
    create_out-AllShort c now items h =
        let data' = sorted_data c now items in
        let count_line = codes "Count: " ++ decimal (length data') ++ codes "\n" in
        let count_short : IsShort count_line = omega (
          arith,
          length-append (codes "Count: " ++ decimal (length data')) (codes "\n"),
          length-decimal (length data'),
        ) in
        let fits =
          rows-AllShort to_double two_digits short c 0 data' (codes "\n" ∷ count_line ∷ [])
            (sorted_data-ItemFits c now items h) (omega arith, (count_short, tt)) in
        let front = codes "Hostwatch: timespan=" ++ decimal_ℤ c.timespan_seconds in
        let middle = front ++ codes " sec, current time=" in
        let head_short : IsShort (head_line to_double two_digits time_text c now) = omega (
          arith,
          length-append (middle ++ time_text now) (codes "\n"),
          length-append middle (time_text now),
          length-append front (codes " sec, current time="),
          length-decimal_ℤ c.timespan_seconds,
          time_short now,
        ) in
        elim (Option-cases (rows to_double two_digits c 0 data' (codes "\n" ∷ count_line ∷ []))) [
          | inl e ↦ rw (e, create_out) tt
          | inr (lines, e) ↦
              rw (e, create_out) (head_short, (omega arith, (omega arith, rw e at fits)))
        ]

    -- If the conversion to `double` keeps an `unsigned long` below or at 2 ^ 64 and the C library's
    -- texts have their usual size (28 bytes for a double, 26 for a time), then from an empty table, with
    -- a clock that does not go back, every run of `main` on lines whose addresses fit ends, and at any
    -- time from then on `create_out` makes a report, no line of which reaches the 512 bytes of `out->s`.
    pub run-AllShort :
        (c : Config) (start last now : ℤ) (events : List Event) (printed : ℤ)
        → InTime start events last
        → last ≤ℤ now
        → All (EventFits c) events
        → (end : Watch) × (run to_double two_digits time_text c events
              (record { items = []; last_print_data = printed })
            ≡ some end)
          × ((lines : List Bytes) × ((create_out to_double two_digits time_text c now end.items).1
                ≡ some lines)
              × All IsShort lines)
    run-AllShort c start last now events printed m later f =
        let empty : Watch = record { items = []; last_print_data = printed } in
        let nothing : IsTable start [] = record { unique = λ a b. omega arith; items_ok = tt } in
        let (end, e, fits) = run-ItemFits c events empty f tt in
        let (end', e', t) =
          run-IsTable to_double two_digits time_text c start last events empty m f nothing in
        let same : end' ≡ end = cc (e, e') in
        let table : IsTable now end.items = IsTable-older last now end.items later (rw same at t) in
        let (_, lines, made, _, _, _) =
          create_out-first to_double two_digits c widened time_text now end.items table.items_ok in
        let made1 = ap (λ r. r.1) made in
        let short_lines = create_out-AllShort c now end.items fits in
        (end, e, (_, made1, rw made1 at short_lines))
