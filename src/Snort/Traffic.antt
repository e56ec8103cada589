-- ===== src/Snort/Traffic.antt =====
-- What snort-scan-util reports is what it has heard, and requests get the last report.
use sntools.Base.{
  ◌≤◌, ◌<◌, ◌≡◌, refl, sym, ◌⊎◌, inl, inr, arith, Bool-cases, if◌then◌else◌, some, List, [], ◌∷◌,
  ◌++◌, length, count, count-le-length, ℤ, ◌≤ℤ◌, ◌-ℤ◌, Bytes, All, All-mono,
}
use sntools.HtmlConvert.Cells.{Fits}
use sntools.Snort.{HitCount, EventData, AlertData, two_32, is_pair, sum_hits, record_alert}
use sntools.Snort.Alert.{Config, Scan, ignored, overflow, alert, scan}
use sntools.Snort.Output.{print_data, handle_request}
use sntools.Snort.Page.{page, handle_request-page}
use sntools.Snort.Report.{report}
use sntools.Snort.Watch.{
  echo, Watch, Event, line_read, request, without_server, report_alert, step, run,
}
use sntools.Snort.Heard.{
  hear, hear_event, heard_in, heard_in-length, is_from, is_recent, last_alert, total, recent_total,
  latest, HitsKnown, LatestKnown, sum_hits-total,
}
use sntools.Snort.Keys.{AtMostOnce}
use sntools.Snort.Known.{IsTable, record_alert-IsTable}
use sntools.Snort.Short.{
  PartsFit, MessageFits, AlertFits, ScanFits, scan-PartsKnown, IsShort, report-IsShort,
  create_out_fits,
}

-- A line is read at `last` or earlier, and it overflows no buffer.
abbrev pub EventFits : Config → ℤ → Event → Type 0
EventFits c last (line_read now drawn line) = (now ≤ℤ last) × ScanFits (scan c.strip_src_port line)
EventFits c last request = Unit

Scan-cases : (s : Scan) → ScanFits s → (s ≡ ignored) ⊎ ((a : AlertData) × (s ≡ alert a))
Scan-cases ignored h = inl refl
Scan-cases overflow h = elim h [ ]
Scan-cases (alert a) h = inr (a, refl)

last_alert-All :
    (P : AlertData → Type 0) (heard : List (ℤ × AlertData)) (src dst : Bytes) (a : AlertData)
    → All (λ x. P x.1) heard
    → last_alert heard src dst ≡ some a
    → P a
unfolding last_alert
last_alert-All P [] src dst a ps e = cc e
last_alert-All P (x ∷ heard) src dst a (p, ps) e = elim (Bool-cases (is_from src dst x)) [
  | inl f ↦ let same : x.1 ≡ a = cc (rw f at e) in rw (sym same) p
  | inr f ↦ last_alert-All P heard src dst a ps (rw f at e)
]

recent_total_le : (before : ℤ) (cs : List HitCount) → recent_total before cs ≤ total cs
recent_total_le before [] = omega arith
recent_total_le before (c ∷ cs) = ground (arith, recent_total_le before cs)

-- What the report says of an item: its last alert, and a number of hits that is not less than the
-- alerts since `before` and not more than all alerts.
pub record Reported (before : ℤ) (heard : List (ℤ × AlertData)) (x : EventData) : Type 0 where
  pub newest : last_alert heard x.host_src x.host_dst ≡ some (latest x)
  pub at_least : count (is_recent before x.host_src x.host_dst) heard ≤ sum_hits x
  pub at_most : sum_hits x ≤ count (is_from x.host_src x.host_dst) heard

Known-Reported :
    (before : ℤ) (heard : List (ℤ × AlertData)) (x : EventData)
    → length heard < two_32
    → HitsKnown before heard x
    → LatestKnown heard x
    → Reported before heard x
Known-Reported before heard x h k l =
    let few = count-le-length (is_from x.host_src x.host_dst) heard in
    let sum : sum_hits x ≡ total x.hit_count = omega (arith, sum_hits-total x, k.no_more, few, h) in
    record {
      newest = l;
      at_least = omega (arith, k.recent, recent_total_le before x.hit_count, sum);
      at_most = omega (arith, k.no_more, sum);
    }

sub-later : (now last timespan : ℤ) → now ≤ℤ last → (now -ℤ timespan) ≤ℤ (last -ℤ timespan)
unfolding ◌-ℤ◌
sub-later now last timespan h = ground arith

module _ (time_text : ℤ → Bytes) where
  -- The table is empty and there is no report, or the report is one of the table.
  abbrev pub Drawn : Config → Watch → Type 0
  Drawn c w =
      ((w.items ≡ []) × (w.out ≡ [])) ⊎ ((drawn : ℤ) × (w.out ≡ report time_text c drawn w.items))

  record State (c : Config) (before : ℤ) (heard : List (ℤ × AlertData)) (w : Watch) : Type 0 where
    table : IsTable before heard w.items
    drawn : Drawn c w
    heard_fit : All (λ x. AlertFits x.1) heard
    out_fits : All IsShort w.out

  module _ (time_short : (t : ℤ) → length (time_text t) ≤ 26) where
    IsTable-fit :
        (before : ℤ) (heard : List (ℤ × AlertData)) (items : List EventData)
        → All (λ x. AlertFits x.1) heard
        → IsTable before heard items
        → All (λ d. AlertFits (latest d)) items
    IsTable-fit before heard items fits t =
        All-mono (λ x. HitsKnown before heard x × LatestKnown heard x) (λ d. AlertFits (latest d))
          items (λ d k. last_alert-All AlertFits heard d.host_src d.host_dst (latest d) fits k.1)
          t.known

    report_alert-State :
        (c : Config) (before now drawn : ℤ) (a : AlertData) (heard : List (ℤ × AlertData))
        (w : Watch)
        → (now -ℤ c.timespan_seconds) ≤ℤ before
        → AlertFits a
        → State c before heard w
        → (next : Watch) × (printed : Bytes) × (report_alert time_text c now drawn a w
            ≡ some (next, printed))
          × State c before ((now, a) ∷ heard) next
    unfolding report_alert
    report_alert-State c before now drawn a heard w h f s =
        let items = record_alert c.timespan_seconds now a w.items in
        let table = record_alert-IsTable c.timespan_seconds before now a heard h w.items s.table in
        let fit = IsTable-fit before ((now, a) ∷ heard) items (f, s.heard_fit) table in
        let made = create_out_fits time_text time_short c drawn items fit in
        (
          record { items = items; out = report time_text c drawn items },
          if without_server c then print_data c items (report time_text c drawn items) else [],
          rw (made, report_alert) refl,
          record {
            table = table;
            drawn = inr (drawn, refl);
            heard_fit = (f, s.heard_fit);
            out_fits = report-IsShort time_text time_short c drawn items fit;
          },
        )

    Fits-out : (out : List Bytes) → All IsShort out → All Fits out
    Fits-out out h = All-mono IsShort Fits out (λ line k. omega arith) h

    step-State :
        (c : Config) (last : ℤ) (e : Event) (heard : List (ℤ × AlertData)) (w : Watch)
        → EventFits c last e
        → State c (last -ℤ c.timespan_seconds) heard w
        → (next : Watch) × (shown : Bytes) × (step time_text c e w ≡ some (next, shown))
          × State c (last -ℤ c.timespan_seconds) (hear_event c e heard) next
    unfolding step
    step-State c last request heard w f s =
        (w, page w.out, rw (handle_request-page w.out (Fits-out w.out s.out_fits), step) refl, s)
    step-State c last (line_read now drawn line) heard w (k, f) s =
        elim (Scan-cases (scan c.strip_src_port line) f) [
          | inl e ↦ (w, echo c line, rw (e, step) refl, rw (e, hear) s)
          | inr (a, e) ↦
              let parts : PartsFit a = rw e at (scan-PartsKnown c.strip_src_port line) in
              let message : MessageFits a = rw e at f in
              let (next, printed, r, t) =
                report_alert-State c (last -ℤ c.timespan_seconds) now drawn a heard w
                  (sub-later now last c.timespan_seconds k) (parts, message) s in
              (next, echo c line ++ printed, rw (e, step, r) refl, rw (e, hear) t)
        ]

    run-State :
        (c : Config) (last : ℤ) (events : List Event) (heard : List (ℤ × AlertData)) (w : Watch)
        → All (EventFits c last) events
        → State c (last -ℤ c.timespan_seconds) heard w
        → (end : Watch) × (shown : List Bytes) × (run time_text c events w ≡ some (end, shown))
          × State c (last -ℤ c.timespan_seconds) (heard_in c events heard) end
    unfolding run
    run-State c last [] heard w f s = (w, [], refl, s)
    run-State c last (e ∷ es) heard w (f, fs) s =
        let (next, printed, r, t) = step-State c last e heard w f s in
        let (end, shown, q, u) = run-State c last es (hear_event c e heard) next fs t in
        (end, printed ∷ shown, rw (r, run, q) refl, u)

    -- Lines that overflow no buffer, with messages that fit a line of the report, none read later than
    -- `last`, and requests in between, fewer than 2 ^ 32 in all: from an empty table the run of `main`
    -- ends without overflow, if the C library's text of a time has its usual size of 26 bytes. The
    -- table then has one item for each pair that was heard. The item has the message, protocol and
    -- priority of the pair's last alert, and its hits are not less than the alerts of the pair that
    -- were read within the time span of `last` and not more than all alerts of the pair. `out` is the
    -- report of this table, if there is any alert, and a request is answered with its page.
    pub run-heard :
        (c : Config) (last : ℤ) (events : List Event)
        → All (EventFits c last) events
        → length events < two_32
        → (end : Watch) × (shown : List Bytes) × (run time_text c events
              (record { items = []; out = [] })
            ≡ some (end, shown))
          × AtMostOnce end.items
          × All (Reported (last -ℤ c.timespan_seconds) (heard_in c events [])) end.items
          × ((src dst : Bytes)
              → count (is_pair src dst) end.items ≡ 0
              → count (is_from src dst) (heard_in c events []) ≡ 0)
          × Drawn c end
          × (handle_request end.out ≡ some (page end.out))
    run-heard c last events f few =
        let before = last -ℤ c.timespan_seconds in
        let heard = heard_in c events [] in
        let nothing : State c before [] (record { items = []; out = [] }) = record {
          table = record { unique = λ a b. omega arith; known = tt; covered = λ a b h. refl };
          drawn = inl (refl, refl);
          heard_fit = tt;
          out_fits = tt;
        } in
        let (end, shown, r, s) =
          run-State c last events [] (record { items = []; out = [] }) f nothing in
        let few_heard : length heard < two_32 = omega (arith, heard_in-length c events [], few) in
        (
          end,
          shown,
          r,
          s.table.unique,
          All-mono (λ x. HitsKnown before heard x × LatestKnown heard x) (Reported before heard)
              end.items (λ x k. Known-Reported before heard x few_heard k.0 k.1) s.table.known,
          s.table.covered,
          s.drawn,
          handle_request-page end.out (Fits-out end.out s.out_fits),
        )
