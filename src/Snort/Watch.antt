-- ===== src/Snort/Watch.antt =====
-- `main`'s loop of src/snort-scan-util.c with its reports, and the requests that the server thread
-- answers between two of its locked sections. Each reading of the clock is a number of its own.
use sntools.Base.{
  Bool, true, false, Option, none, some, List, [], ◌∷◌, ◌++◌, if◌then◌else◌, ℤ, ltb, Bytes, codes,
}
use sntools.Snort.{EventData, AlertData, record_alert}
use sntools.Snort.Alert.{Config, ignored, overflow, alert, scan}
use sntools.Snort.Output.{create_out, print_data, handle_request}

-- `data` and `out`.
pub record Watch : Type 0 where
  pub items : List EventData
  pub out : List Bytes

-- What happens next: `main` reads a line at time `now` and makes its report, if it does, at time
-- `drawn`, or the server thread handles a request whose head is sent.
pub data Event : Type 0 where
  line_read : (now drawn : ℤ) → Bytes → Event
  request : Event

abbrev pub without_server : Config → Bool
without_server c = elim c.server_ip [ none ↦ true | some _ ↦ false ]

-- The line as `main` prints it with `-v`.
abbrev pub echo : Config → Bytes → Bytes
echo c line = if ltb 0 c.verbosity then codes "snort> " ++ line ++ codes "\n" else []

module _ (time_text : ℤ → Bytes) where
  -- The locked section of `main` and the print behind it: the new state and what is printed.
  unfoldable pub report_alert :
      Config → (now drawn : ℤ) → AlertData → Watch → Option (Watch × Bytes)
  report_alert c now drawn a w =
      let items = record_alert c.timespan_seconds now a w.items in
      elim (create_out time_text c drawn items) [
        | none ↦ none
        | some lines ↦ some (
          record { items = items; out = lines },
          if without_server c then print_data c items lines else [],
        )
      ]

  -- The new state, and what is printed or sent; `none` is an overflow of a buffer.
  unfoldable pub step : Config → Event → Watch → Option (Watch × Bytes)
  step c (line_read now drawn line) w = elim (scan c.strip_src_port line) [
    | ignored ↦ some (w, echo c line)
    | overflow ↦ none
    | alert a ↦ elim (report_alert c now drawn a w) [
      | none ↦ none
      | some r ↦ some (r.0, echo c line ++ r.1)
    ]
  ]
  step c request w = elim (handle_request w.out) [ none ↦ none | some page ↦ some (w, page) ]

  unfoldable pub run : Config → List Event → Watch → Option (Watch × List Bytes)
  run c [] w = some (w, [])
  run c (e ∷ es) w = elim (step c e w) [
    | none ↦ none
    | some r ↦ elim (run c es r.0) [ none ↦ none | some s ↦ some (s.0, r.1 ∷ s.1) ]
  ]
