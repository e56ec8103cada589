-- ===== src/Hostwatch/Watch.antt =====
-- `main`'s loop of src/hostwatch.c with its reports, and the requests that the server thread answers
-- between two of its locked sections. Each reading of the clock is a number of its own.
use sntools.Base.{
  Bool, true, false, ◌&&◌, Option, none, some, List, [], ◌∷◌, if◌then◌else◌, ℤ, pos, ◌-ℤ◌, ltb_ℤ, ℕ,
  Bytes,
}
use sntools.Hostwatch.{HostData, update}
use sntools.Hostwatch.Packet.{Config, ignored, overflow, packet, scan}
use sntools.Hostwatch.Output.{print_data, handle_request}

-- `data` and `last_print_data`.
pub record Watch : Type 0 where
  pub items : List HostData
  pub last_print_data : ℤ

-- What happens next: `main` reads a line at time `now` and prints, if it does, at time `printed`, or
-- the server thread handles a request.
pub data Event : Type 0 where
  line_read : (now printed : ℤ) → Bytes → Event
  request : (now : ℤ) → Event

abbrev pub print_interval_seconds : ℤ
print_interval_seconds = pos 3

abbrev pub without_server : Config → Bool
without_server c = elim c.server_ip [ none ↦ true | some _ ↦ false ]

module _ (to_double : ℕ → ℕ) (two_digits : (n i : ℕ) → Bytes) (time_text : ℤ → Bytes) where
  -- The report of `main` behind an update.
  unfoldable pub print_if_due : Config → (now printed : ℤ) → Watch → Watch
  print_if_due c now printed w =
      if without_server c && ltb_ℤ print_interval_seconds (now -ℤ w.last_print_data)
      then record {
        items = (print_data to_double two_digits time_text c printed w.items).0;
        last_print_data = now;
      }
      else w

  -- `none` is an overflow of an address.
  unfoldable pub step : Config → Event → Watch → Option Watch
  step c (line_read now printed line) w = elim (scan c.strip_port_above line) [
    | ignored ↦ some w
    | overflow ↦ none
    | packet p ↦ some (
        print_if_due c now printed (record w {
          items =
              update c.ignore_direction c.timespan_seconds now p.from_address p.to_address p.bytes
                w.items;
        }))
  ]
  step c (request now) w =
      some (record w { items = (handle_request to_double two_digits time_text c now w.items).0 })

  unfoldable pub run : Config → List Event → Watch → Option Watch
  run c [] w = some w
  run c (e ∷ es) w = elim (step c e w) [ none ↦ none | some w' ↦ run c es w' ]
