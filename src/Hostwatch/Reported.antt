-- ===== src/Hostwatch/Reported.antt =====
-- What the lines of hostwatch's report show of the packets read.
use sntools.Base.{
  ℕ, ◌%◌, ◌≡◌, refl, sym, ap, ◌∙◌, some, List, [], ◌∷◌, arith, get_elem?, two_64, ℤ, ◌-ℤ◌, Bytes,
  All,
}
use sntools.LinkedItems.{exceeds}
use sntools.LinkedItems.Bubble.Map.{All-sort_list}
use sntools.Pairs.{connects_refl}
use sntools.Hostwatch.{HostData, compare, cleanup_host_data}
use sntools.Hostwatch.Window.{recent, traffic, EachCleaned, cleanup_host_data-Cleaned}
use sntools.Hostwatch.Keys.{IsTable}
use sntools.Hostwatch.Packet.{Config}
use sntools.Hostwatch.Output.{titles, head_line, bytes_text, row, sorted_data, create_out}
use sntools.Hostwatch.Report.{create_out-first}
use sntools.Hostwatch.Sorted.{Descending}
use sntools.Base.{
  Option, none, zero, suc, ◌<◌, ◌≤◌, ◌++◌, map, take, length, pos_part, codes, decimal,
}
use sntools.Hostwatch.Watch.{Watch, Event, run}
use sntools.Hostwatch.Run.{InTime, EventFits}
use sntools.Hostwatch.Only.{seen-get_elem?, sorted_data-HostsOnce}
use sntools.Base.{get_elem?-All, All-get_elem?}
use sntools.Hostwatch.Seen.{seen, recent-recent}
use sntools.Hostwatch.Traffic.{logged, seen-sorted_data, run-seen}

-- The sum of a cleaned item is what it holds since the cut.
abbrev Summed : ℤ → HostData → Type 0
Summed cut item = item.byte_sum ≡ traffic (recent cut item.byte_count) % two_64

EachCleaned-Summed :
    (cut now : ℤ) (items cleaned : List HostData)
    → EachCleaned cut now items cleaned
    → All (Summed cut) cleaned
EachCleaned-Summed cut now [] [] c = tt
EachCleaned-Summed cut now [] (y ∷ ys) c = elim c [ ]
EachCleaned-Summed cut now (x ∷ xs) [] c = elim c [ ]
EachCleaned-Summed cut now (x ∷ xs) (y ∷ ys) (c, cs) =
    let kept : recent cut y.byte_count ≡ y.byte_count =
      ap (recent cut) c.counts ∙ recent-recent cut cut x.byte_count (omega arith) ∙ sym c.counts in
    (
      c.item_ok.summed ∙ ap (λ bs. traffic bs % two_64) (sym kept),
      EachCleaned-Summed cut now xs ys cs,
    )

module _ (to_double : ℕ → ℕ) (two_digits : (n i : ℕ) → Bytes) where
  -- The line of an item, with a number of bytes in place of its sum.
  abbrev pub traffic_line : Config → HostData → ℕ → Option Bytes
  traffic_line c item total = elim (bytes_text to_double two_digits c total) [
    | none ↦ none
    | some amount ↦ some (
        item.host_a
        ++ codes "\t"
        ++ item.host_b
        ++ codes "\t"
        ++ amount
        ++ codes " ("
        ++ decimal (length item.byte_count)
        ++ codes ")\n")
  ]

  row-traffic_line :
      (c : Config) (total : HostData → ℕ) (n : ℕ) (items : List HostData)
      → All (λ item. item.byte_sum ≡ total item) items
      → map (λ item. traffic_line c item (total item)) (take n items)
        ≡ map (row to_double two_digits c) (take n items)
  unfolding row
  row-traffic_line c total zero items h = refl
  row-traffic_line c total (suc n) [] h = refl
  row-traffic_line c total (suc n) (d ∷ items) (h, hs) =
      rw (sym h, row-traffic_line c total n items hs) refl

module _ (to_double : ℕ → ℕ) (two_digits : (n i : ℕ) → Bytes) (time_text : ℤ → Bytes) where
  -- If the conversion to `double` keeps an `unsigned long` below or at 2 ^ 64: from an empty table, with
  -- a clock that does not go back and addresses that fit their buffers, any run of `main` with its
  -- reports and the requests in between ends without overflow. A report at its end has the title, the
  -- names of the columns, one line for each of the first `print_max_items` items of its table, the
  -- greatest sums first, and the number of items. The line of an item shows the bytes of all packets
  -- from its first host to its second one (with `-x` also of those back) that were read within the time
  -- span, modulo 2 ^ 64, and the sum of every item of the table, printed or not, is that number. No
  -- traffic is missing in the table: what its items hold of any two hosts since then is the bytes of
  -- their packets in that time.
  pub run-reported :
      (widened : (n : ℕ) → n < two_64 → to_double n ≤ two_64) (c : Config) (start last : ℤ)
      (events : List Event) (printed : ℤ)
      → InTime start events last
      → All (EventFits c) events
      → (end : Watch) × (run to_double two_digits time_text c events
            (record { items = []; last_print_data = printed })
          ≡ some end)
        × ((table : List HostData) × (lines : List Bytes) × (create_out to_double two_digits
                time_text c last end.items
              ≡ (
                table,
                some (
                    head_line to_double two_digits time_text c last ∷ codes "\n" ∷ titles ∷ lines
                    ++ codes "\n" ∷ (codes "Count: " ++ decimal (length table) ++ codes "\n") ∷ []),
              ))
            × (map
                  (λ item.
                    traffic_line to_double two_digits c item (
                      logged c (last -ℤ c.timespan_seconds) item.host_a item.host_b events
                      % two_64))
                  (take (pos_part c.print_max_items) table)
                ≡ map some lines)
            × Descending table
            × All
                (λ item.
                  item.byte_sum
                  ≡ logged c (last -ℤ c.timespan_seconds) item.host_a item.host_b events % two_64)
                table
            × ((a b : Bytes)
                → seen c.ignore_direction (last -ℤ c.timespan_seconds) a b table
                  ≡ logged c (last -ℤ c.timespan_seconds) a b events))
  unfolding create_out
  run-reported widened c start last events printed m f =
      let cut = last -ℤ c.timespan_seconds in
      let empty : Watch = record { items = []; last_print_data = printed } in
      let nothing : IsTable start [] = record { unique = λ a b. omega arith; items_ok = tt } in
      let (end, r, t, o, s) =
        run-seen to_double two_digits time_text c start last cut events empty (omega arith) m f
          nothing (λ a b. omega arith) in
      let known : (a b : Bytes)
          → seen c.ignore_direction cut a b end.items ≡ logged c cut a b events =
        λ a b. omega (arith, s a b) in
      let report = sorted_data c last end.items in
      let once = sorted_data-HostsOnce c last c.ignore_direction end.items o in
      let summed : All (Summed cut) report =
        All-sort_list (exceeds compare) (Summed cut) (cleanup_host_data end.items cut) (
          EachCleaned-Summed cut last end.items (cleanup_host_data end.items cut)
            (cleanup_host_data-Cleaned cut last end.items t.items_ok)) in
      let shown : (i : ℕ) (x : HostData)
          → get_elem? report i ≡ some x
          → x.byte_sum ≡ logged c cut x.host_a x.host_b events % two_64 =
        λ i x e.
          let all =
            seen-get_elem? c.ignore_direction cut x.host_a x.host_b report i x
              (connects_refl c.ignore_direction x.host_a x.host_b) (once x.host_a x.host_b) e in
          let kept = seen-sorted_data c last cut x.host_a x.host_b end.items (omega arith) t in
          All-get_elem? (Summed cut) report i x summed e
          ∙ ap (λ n. n % two_64) (sym all ∙ kept ∙ known x.host_a x.host_b) in
      let total : HostData → ℕ = λ x. logged c cut x.host_a x.host_b events % two_64 in
      let all_shown : All (λ x. x.byte_sum ≡ total x) report =
        get_elem?-All (λ x. x.byte_sum ≡ total x) report shown in
      let (table, lines, made, rows, order, _) =
        create_out-first to_double two_digits c widened time_text last end.items t.items_ok in
      let same : report ≡ table = ap (λ r. r.0) made in
      let all_in : All (λ x. x.byte_sum ≡ total x) table = rw same at all_shown in
      let none_missing : (a b : Bytes)
          → seen c.ignore_direction cut a b table ≡ logged c cut a b events =
        λ a b.
          ap (seen c.ignore_direction cut a b) (sym same)
          ∙ seen-sorted_data c last cut a b end.items (omega arith) t
          ∙ known a b in
      let printed_rows =
        row-traffic_line to_double two_digits c total (pos_part c.print_max_items) table all_in
        ∙ rows in
      (end, r, (table, lines, made, printed_rows, order, all_in, none_missing))
