-- ===== src/Hostwatch/Traffic.antt =====
-- What hostwatch reports is the traffic of the lines that it has read.
use sntools.Base.{
  ℕ, ◌+◌, ◌≡◌, refl, sym, ◌∙◌, Bool, ◌&&◌, some, List, [], ◌∷◌, inl, inr, arith, Bool-cases, ℤ,
  ◌≤ℤ◌, ◌-ℤ◌, ltb_ℤ, Bytes, All,
}
use sntools.LinkedItems.{exceeds}
use sntools.LinkedItems.Bubble.{sort_list-perm}
use sntools.Hostwatch.{HostData, compare, cleanup_host_data, update}
use sntools.Hostwatch.Window.{cleanup_host_data-Cleaned}
use sntools.Hostwatch.Keys.{IsTable, update-IsTable}
use sntools.Hostwatch.Packet.{Config, ignored, overflow, packet, scan, Scan}
use sntools.Hostwatch.Output.{sorted_data, print_data, handle_request, create_out}
use sntools.Hostwatch.Watch.{
  Watch, Event, line_read, request, print_interval_seconds, without_server, print_if_due, step, run,
}
use sntools.Hostwatch.Run.{
  InTime, EventFits, IsTable-older, Scan-cases, sorted_data-IsTable, print_if_due-IsTable,
}
use sntools.Hostwatch.Only.{HostsOnce, update-HostsOnce, sorted_data-HostsOnce}
use sntools.Hostwatch.Seen.{seen, packet_seen, seen-Perm, seen-EachCleaned, seen-update}

-- The bytes that a scanned line, and the events, hold for two hosts from `before` on.
abbrev pub scan_seen : Bool → ℤ → Bytes → Bytes → (now : ℤ) → Scan → ℕ
scan_seen both before a b now ignored = 0
scan_seen both before a b now overflow = 0
scan_seen both before a b now (packet p) =
    packet_seen both before a b now p.from_address p.to_address p.bytes

abbrev pub logged : Config → ℤ → Bytes → Bytes → List Event → ℕ
logged c before a b [] = 0
logged c before a b (request now ∷ es) = logged c before a b es
logged c before a b (line_read now printed line ∷ es) =
    scan_seen c.ignore_direction before a b now (scan c.strip_port_above line)
    + logged c before a b es

sub-later :
    (now last timespan before : ℤ)
    → now ≤ℤ last
    → (last -ℤ timespan) ≤ℤ before
    → (now -ℤ timespan) ≤ℤ before
unfolding ◌-ℤ◌
sub-later now last timespan before h k = ground arith

pub seen-sorted_data :
    (c : Config) (now before : ℤ) (a b : Bytes) (items : List HostData)
    → (now -ℤ c.timespan_seconds) ≤ℤ before
    → IsTable now items
    → seen c.ignore_direction before a b (sorted_data c now items)
      ≡ seen c.ignore_direction before a b items
seen-sorted_data c now before a b items h t =
    let cut = now -ℤ c.timespan_seconds in
    let cleaned = cleanup_host_data items cut in
    seen-Perm c.ignore_direction before a b (sort_list-perm (exceeds compare) cleaned)
    ∙ seen-EachCleaned cut now c.ignore_direction before a b items cleaned h
        (cleanup_host_data-Cleaned cut now items t.items_ok)

InTime-later : (t : ℤ) (events : List Event) (last : ℤ) → InTime t events last → t ≤ℤ last
InTime-later t [] last m = rw m (omega arith)
InTime-later t (line_read now printed line ∷ es) last (h, k, m) =
    omega (arith, InTime-later printed es last m)
InTime-later t (request now ∷ es) last (h, m) = omega (arith, InTime-later now es last m)

module _ (to_double : ℕ → ℕ) (two_digits : (n i : ℕ) → Bytes) (time_text : ℤ → Bytes) where
  seen-print_data :
      (c : Config) (now before : ℤ) (a b : Bytes) (items : List HostData)
      → (now -ℤ c.timespan_seconds) ≤ℤ before
      → IsTable now items
      → seen c.ignore_direction before a b (print_data to_double two_digits time_text c now items).0
        ≡ seen c.ignore_direction before a b items
  unfolding print_data create_out
  seen-print_data c now before a b [] h t = refl
  seen-print_data c now before a b (d ∷ ds) h t = seen-sorted_data c now before a b (d ∷ ds) h t

  seen-print_if_due :
      (c : Config) (now printed before : ℤ) (a b : Bytes) (w : Watch)
      → (printed -ℤ c.timespan_seconds) ≤ℤ before
      → IsTable printed w.items
      → seen c.ignore_direction before a b
          (print_if_due to_double two_digits time_text c now printed w).items
        ≡ seen c.ignore_direction before a b w.items
  unfolding print_if_due
  seen-print_if_due c now printed before a b w h t =
      elim (Bool-cases
        (without_server c && ltb_ℤ print_interval_seconds (now -ℤ w.last_print_data))) [
          | inl e ↦ rw e (seen-print_data c printed before a b w.items h t)
          | inr e ↦ rw e refl
        ]

  print_if_due-HostsOnce :
      (c : Config) (now printed : ℤ) (both : Bool) (w : Watch)
      → HostsOnce both w.items
      → HostsOnce both (print_if_due to_double two_digits time_text c now printed w).items
  unfolding print_if_due print_data create_out
  print_if_due-HostsOnce c now printed both w once =
      elim (Bool-cases
        (without_server c && ltb_ℤ print_interval_seconds (now -ℤ w.last_print_data))) [
          | inl e ↦ rw e (print_data-HostsOnce w.items once)
          | inr e ↦ rw e once
        ]
    where
      print_data-HostsOnce :
          (items : List HostData)
          → HostsOnce both items
          → HostsOnce both (print_data to_double two_digits time_text c printed items).0
      print_data-HostsOnce [] h = h
      print_data-HostsOnce (d ∷ ds) h = sorted_data-HostsOnce c printed both (d ∷ ds) h

  pub run-seen :
      (c : Config) (start last before : ℤ) (events : List Event) (w : Watch)
      → (last -ℤ c.timespan_seconds) ≤ℤ before
      → InTime start events last
      → All (EventFits c) events
      → IsTable start w.items
      → HostsOnce c.ignore_direction w.items
      → (end : Watch) × (run to_double two_digits time_text c events w ≡ some end)
        × IsTable last end.items
        × HostsOnce c.ignore_direction end.items
        × ((a b : Bytes)
            → seen c.ignore_direction before a b end.items
              ≡ seen c.ignore_direction before a b w.items + logged c before a b events)
  unfolding run step handle_request create_out
  run-seen c start last before [] w h m f t once = (w, refl, rw (sym m) t, once, λ a b. omega arith)
  run-seen c start last before (request now ∷ es) w h (k, m) (_, fs) t once =
      let t1 = IsTable-older start now w.items k t in
      let early = sub-later now last c.timespan_seconds before (InTime-later now es last m) h in
      let (end, r, u, o, s) =
        run-seen c now last before es (record w { items = sorted_data c now w.items }) h m fs
          (sorted_data-IsTable c now w.items t1)
          (sorted_data-HostsOnce c now c.ignore_direction w.items once) in
      (
        end,
        r,
        u,
        o,
        λ a b. omega (arith, s a b, seen-sorted_data c now before a b w.items early t1),
      )
  run-seen c start last before (line_read now printed line ∷ es) w h (k, j, m) (f, fs) t once =
      let late = InTime-later printed es last m in
      elim (Scan-cases (scan c.strip_port_above line) f) [
        | inl e ↦
            let t1 = IsTable-older now printed w.items j (IsTable-older start now w.items k t) in
            let (end, r, u, o, s) = run-seen c printed last before es w h m fs t1 once in
            rw (e, run) (end, r, u, o, λ a b. omega (arith, s a b))
        | inr (p, e) ↦
            let new =
              update c.ignore_direction c.timespan_seconds now p.from_address p.to_address p.bytes
                w.items in
            let w1 : Watch = record w { items = new } in
            let w2 = print_if_due to_double two_digits time_text c now printed w1 in
            let t1 = IsTable-older now printed new j (
              update-IsTable c.ignore_direction c.timespan_seconds start now p.from_address
                p.to_address p.bytes w.items k t) in
            let once1 =
              update-HostsOnce c.ignore_direction c.timespan_seconds now p.from_address p.to_address
                p.bytes w.items once in
            let (end, r, u, o, s) =
              run-seen c printed last before es w2 h m fs
                (print_if_due-IsTable to_double two_digits time_text c now printed w1 t1)
                (print_if_due-HostsOnce c now printed c.ignore_direction w1 once1) in
            let early = sub-later now last c.timespan_seconds before (omega (arith, late)) h in
            let counted : (a b : Bytes)
                → seen c.ignore_direction before a b new
                  ≡ seen c.ignore_direction before a b w.items
                    + packet_seen c.ignore_direction before a b now p.from_address p.to_address
                        p.bytes =
              λ a b.
                seen-update c.timespan_seconds start now before p.bytes early c.ignore_direction
                  p.from_address p.to_address a b w.items t.items_ok in
            rw (e, run)
              (
                end,
                r,
                u,
                o,
                λ a b. omega (
                  arith,
                  s a b,
                  counted a b,
                  seen-print_if_due c now printed before a b w1
                      (sub-later printed last c.timespan_seconds before late h) t1,
                ),
              )
      ]
