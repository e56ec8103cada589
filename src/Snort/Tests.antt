-- ===== src/Snort/Tests.antt =====
-- An alert of snort, and the theorems on small tables.
use sntools.Base.{
  ℕ, ◌≡◌, refl, true, none, some, List, [], ◌∷◌, arith, if◌then◌else◌, count, pos, ◌-ℤ◌, All, Bytes,
  codes, is_prefix, find, find_last, digits, atoi, copy_n, contains, contains-Lacks, decimal,
  decimal_loop,
}
use sntools.Snort.{
  HitCount, EventData, AlertData, is_pair, remove_hit_count_before, record_alert, sum_hits,
  sum_loop, score,
}
use sntools.Snort.Alert.{
  defaults, set_option, configure, strip_port, alert, find_prio, copy_alert, scan,
}
use sntools.Snort.Output.{create_out, handle_request}
use sntools.Snort.Line.{Alert, printed, IsAlert, scan-printed_alert}
use sntools.Snort.Window.{all_expired, from_recent, remove_hit_count_before-prefix}
use sntools.Snort.Keys.{AtMostOnce}
use sntools.Snort.Watch.{Watch, Event, line_read, request, run}
use sntools.Snort.Heard.{heard_in, is_from}
use sntools.Snort.Page.{page}
use sntools.Snort.Traffic.{Reported, Drawn, run-heard}
use sntools.Snort.Report.{all_short, report, create_out-report}

abbrev line : Bytes
line =
    codes
      "18:01 [1:1411:10] udp [**] [Priority: 2] {UDP} 192.168.0.185:60860 -> 192.168.1.236:161\n"

abbrev udp_alert : AlertData
udp_alert = record {
  proto = codes "UDP";
  source = codes "192.168.0.185";
  target = codes "192.168.1.236:161";
  message = codes "18:01 [1:1411:10] udp [**] [Priority: 2]";
  prio = pos 2;
}

scan_sample : scan true line ≡ alert udp_alert
unfolding scan find is_prefix copy_alert copy_n find_prio strip_port find_last atoi digits
scan_sample = refl

configure_sample :
    configure defaults ((b'm', []) ∷ (b't', codes "60") ∷ [])
    ≡ record defaults { strip_src_port = true; timespan_seconds = pos 60 }
unfolding configure set_option atoi digits
configure_sample = refl

abbrev hit : ℕ → HitCount
hit t = record { ts = pos t; hits = 1 }

abbrev event : Bytes → List HitCount → EventData
event src hits = record {
  host_src = src;
  host_dst = codes "t";
  latest_proto = codes "TCP";
  latest_message = codes "m";
  latest_prio = pos 2;
  hit_count = hits;
}

score_sample : score (event (codes "a") (hit 1 ∷ hit 2 ∷ [])) ≡ 120002
unfolding score sum_hits sum_loop
score_sample = refl

remove_hit_count_before-prefix_example :
    remove_hit_count_before
      (event (codes "a") (hit 1 ∷ [])
        ∷ event (codes "b") (hit 2 ∷ hit 9 ∷ [])
        ∷ event (codes "c") (hit 1 ∷ [])
        ∷ [])
      (pos 5)
    ≡ event (codes "a") [] ∷ event (codes "b") (hit 9 ∷ []) ∷ event (codes "c") (hit 1 ∷ []) ∷ []
unfolding all_expired from_recent
remove_hit_count_before-prefix_example =
    remove_hit_count_before-prefix (pos 5) (event (codes "a") (hit 1 ∷ []) ∷ [])
      (event (codes "b") (hit 2 ∷ hit 9 ∷ [])) (event (codes "c") (hit 1 ∷ []) ∷ []) (refl, tt) refl

-- The table of one item for the pair of the alert, after it.
abbrev after_alert : List EventData
after_alert = record_alert (pos 10) (pos 20) udp_alert (event (codes "a") [] ∷ [])

create_out-report_example :
    create_out (λ t. codes "noon\n") defaults (pos 20) (event (codes "a") (hit 1 ∷ []) ∷ []) ≡ (
      if all_short
        (report (λ t. codes "noon\n") defaults (pos 20) (event (codes "a") (hit 1 ∷ []) ∷ []))
      then some
          (report (λ t. codes "noon\n") defaults (pos 20) (event (codes "a") (hit 1 ∷ []) ∷ []))
      else none)
create_out-report_example =
    create_out-report (λ t. codes "noon\n") defaults (pos 20) (event (codes "a") (hit 1 ∷ []) ∷ [])

abbrev events : List Event
events =
    line_read (pos 20) (pos 20) (codes "ready\n") ∷ line_read (pos 21) (pos 22) line ∷ request ∷ []

run-heard_example :
    (end : Watch) × (shown : List Bytes) × (run
        (λ t. codes "noon\n")
        defaults
        events
        (record { items = []; out = [] })
      ≡ some (end, shown))
    × AtMostOnce end.items
    × All (Reported (pos 25 -ℤ pos 3600) (heard_in defaults events [])) end.items
    × ((src dst : Bytes)
        → count (is_pair src dst) end.items ≡ 0
        → count (is_from src dst) (heard_in defaults events []) ≡ 0)
    × Drawn (λ t. codes "noon\n") defaults end
    × (handle_request end.out ≡ some (page end.out))
unfolding scan find is_prefix copy_alert copy_n find_prio strip_port find_last atoi digits
run-heard_example =
    run-heard (λ t. codes "noon\n") (λ t. omega arith) defaults (pos 25) events
      ((omega arith, tt), ((omega arith, omega arith), (tt, tt))) (omega arith)

abbrev parts : Alert
parts = record {
  intro = codes "SNMP [";
  prio = 2;
  closing = codes "]";
  proto = codes "UDP";
  source = codes "10.0.0.1:60860";
  target = codes "10.0.0.2:161";
}

parts-IsAlert : IsAlert parts
unfolding contains is_prefix decimal decimal_loop
parts-IsAlert = record {
  first_priority = (refl, (refl, (refl, (refl, (refl, (refl, tt))))));
  closing_clean = refl;
  opening_clean = contains-Lacks b'{' (codes "SNMP [Priority: 2] ") refl;
  named_clean = contains-Lacks b'}' (codes "SNMP [Priority: 2] {UDP") refl;
  lead_clean = contains-Lacks b'>' (codes "SNMP [Priority: 2] {UDP} 10.0.0.1:60860") refl;
  prio_fits = omega arith;
  proto_fits = omega arith;
  source_fits = omega arith;
  target_fits = omega arith;
  message_fits = omega arith;
}

scan-printed_alert_example :
    scan true (printed parts)
    ≡ alert (record {
      proto = codes "UDP";
      source = codes "10.0.0.1";
      target = codes "10.0.0.2:161";
      message = codes "SNMP [Priority: 2]";
      prio = pos 2;
    })
unfolding strip_port find_last decimal decimal_loop
scan-printed_alert_example = scan-printed_alert parts parts-IsAlert true
