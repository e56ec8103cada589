-- ===== src/Hostwatch/Run.antt =====
-- The table stays sound while `main` reads, prints and the server thread answers requests.
use sntools.Base.{
  ◌≡◌, ◌≢◌, ◌⊎◌, refl, sym, ◌&&◌, some, List, [], ◌∷◌, inl, inr, Bool-cases, ℕ, ℤ, ◌≤ℤ◌, ◌-ℤ◌,
  ltb_ℤ, Bytes, All, All-mono,
}
use sntools.LinkedItems.{exceeds}
use sntools.LinkedItems.Bubble.Map.{All-sort_list, count-sort_list}
use sntools.Hostwatch.{HostData, is_pair, compare, cleanup_host_data, update}
use sntools.Hostwatch.Window.{
  count-cleanup_host_data, IsItem, IsItem-older, cleanup_host_data-Cleaned,
}
use sntools.Hostwatch.Keys.{IsTable, update-IsTable}
use sntools.Hostwatch.Packet.{Config, Packet, ignored, overflow, packet, scan, Scan}
use sntools.Hostwatch.Output.{sorted_data, create_out, print_data, handle_request}
use sntools.Hostwatch.Report.{EachCleaned-IsItem}
use sntools.Hostwatch.Watch.{
  Watch, Event, line_read, request, print_interval_seconds, without_server, print_if_due, step, run,
}

-- The addresses of the line fit into the two buffers.
abbrev Fits : Config → Bytes → Type 0
Fits c line = scan c.strip_port_above line ≢ overflow

pub IsTable-older :
    (old now : ℤ) (items : List HostData) → old ≤ℤ now → IsTable old items → IsTable now items
IsTable-older old now items h t = record {
  unique = t.unique;
  items_ok = All-mono (IsItem old) (IsItem now) items (λ x. IsItem-older old now x h) t.items_ok;
}

pub Scan-cases : (s : Scan) → s ≢ overflow → (s ≡ ignored) ⊎ ((p : Packet) × (s ≡ packet p))
Scan-cases ignored h = inl refl
Scan-cases overflow h = elim (h refl) [ ]
Scan-cases (packet p) h = inr (p, refl)

pub sorted_data-IsTable :
    (c : Config) (now : ℤ) (items : List HostData)
    → IsTable now items
    → IsTable now (sorted_data c now items)
sorted_data-IsTable c now items t =
    let before = now -ℤ c.timespan_seconds in
    let clean = cleanup_host_data items before in
    record {
      unique = λ a b.
          rw
            (
              count-sort_list (exceeds compare) (is_pair a b) clean,
              count-cleanup_host_data (is_pair a b) (λ x y h k. rw (h, k) refl) before items,
            )
            (t.unique a b);
      items_ok = All-sort_list (exceeds compare) (IsItem now) clean (
          EachCleaned-IsItem before now items clean
            (cleanup_host_data-Cleaned before now items t.items_ok));
    }

-- Each reading of the clock is not earlier than the one before it; `last` is the last one.
abbrev pub InTime : ℤ → List Event → ℤ → Type 0
InTime t [] last = t ≡ last
InTime t (line_read now printed line ∷ es) last =
    (t ≤ℤ now) × (now ≤ℤ printed) × InTime printed es last
InTime t (request now ∷ es) last = (t ≤ℤ now) × InTime now es last

-- The addresses of a line that is read fit into their buffers.
abbrev pub EventFits : Config → Event → Type 0
EventFits c (line_read now printed line) = Fits c line
EventFits c (request now) = Unit

module _ (to_double : ℕ → ℕ) (two_digits : (n i : ℕ) → Bytes) (time_text : ℤ → Bytes) where
  create_out-table :
      (c : Config) (now : ℤ) (items : List HostData)
      → (create_out to_double two_digits time_text c now items).0 ≡ sorted_data c now items
  unfolding create_out
  create_out-table c now items = refl

  print_data-IsTable :
      (c : Config) (now : ℤ) (items : List HostData)
      → IsTable now items
      → IsTable now (print_data to_double two_digits time_text c now items).0
  unfolding print_data create_out
  print_data-IsTable c now [] t = t
  print_data-IsTable c now (d ∷ ds) t = sorted_data-IsTable c now (d ∷ ds) t

  pub print_if_due-IsTable :
      (c : Config) (now printed : ℤ) (w : Watch)
      → IsTable printed w.items
      → IsTable printed (print_if_due to_double two_digits time_text c now printed w).items
  unfolding print_if_due
  print_if_due-IsTable c now printed w t =
      elim (Bool-cases
        (without_server c && ltb_ℤ print_interval_seconds (now -ℤ w.last_print_data))) [
          | inl e ↦ rw e (print_data-IsTable c printed w.items t)
          | inr e ↦ rw e t
        ]

  -- Any run of `main` with its reports, in which the server thread answers requests between the
  -- lines, with a clock that does not go back and addresses that fit their buffers, ends without
  -- overflow. It leaves a sound table: one item for each pair of hosts, every item's counts in the
  -- order of their times, and its sum the traffic of its counts modulo 2 ^ 64.
  pub run-IsTable :
      (c : Config) (start last : ℤ) (events : List Event) (w : Watch)
      → InTime start events last
      → All (EventFits c) events
      → IsTable start w.items
      → (end : Watch) × (run to_double two_digits time_text c events w ≡ some end)
        × IsTable last end.items
  unfolding run step handle_request create_out
  run-IsTable c start last [] w m f t = (w, refl, rw (sym m) t)
  run-IsTable c start last (request now ∷ es) w (h, m) (_, fs) t =
      run-IsTable c now last es (record w { items = sorted_data c now w.items }) m fs
        (sorted_data-IsTable c now w.items (IsTable-older start now w.items h t))
  run-IsTable c start last (line_read now printed line ∷ es) w (h, k, m) (f, fs) t =
      elim (Scan-cases (scan c.strip_port_above line) f) [
        | inl e ↦
            rw (e, run)
              (run-IsTable c printed last es w m fs
                (IsTable-older now printed w.items k (IsTable-older start now w.items h t)))
        | inr (p, e) ↦
            let new =
              update c.ignore_direction c.timespan_seconds now p.from_address p.to_address p.bytes
                w.items in
            let u =
              update-IsTable c.ignore_direction c.timespan_seconds start now p.from_address
                p.to_address p.bytes w.items h t in
            let w1 : Watch = record w { items = new } in
            rw (e, run)
              (run-IsTable c printed last es
                (print_if_due to_double two_digits time_text c now printed w1) m fs
                (print_if_due-IsTable c now printed w1 (IsTable-older now printed new k u)))
      ]
