-- ===== src/Snort/Report.antt =====
-- The lines of snort-scan-util's report, and when they fit.
use sntools.Base.{
  ℕ, suc, ◌-◌, ◌%◌, ◌≡◌, refl, ap, Bool, true, ◌&&◌, Option, none, some, List, [], ◌∷◌, ◌++◌,
  if◌then◌else◌, inl, inr, Bool-cases, length, take, take_nil, none_left, one_left, sub_zero, ltb,
  ℤ, pos, pos_part, ltb_ℤ, Bytes, codes, decimal, decimal_ℤ,
}
use sntools.Snort.{EventData}
use sntools.Snort.Heard.{total, sum_hits-total}
use sntools.Snort.Alert.{Config}
use sntools.Snort.Output.{append_all, item_lines, rows, count_line, create_out}

-- Every line has at most 511 bytes, so that its NUL is in the 512 bytes of `out->s`.
unfoldable pub all_short : List Bytes → Bool
all_short [] = true
all_short (l ∷ ls) = ltb (length l) 512 && all_short ls

-- A number of hits below 2 ^ 32, as a signed integer of 32 bits.
abbrev pub hits_text : ℕ → Bytes
hits_text n = if ltb n 2147483648 then decimal n else b'-' ∷ decimal (4294967296 - n)

-- Attacker and target with the latest protocol, the hits of all counters, and the latest message.
abbrev pub item_report : EventData → List Bytes
item_report d =
    (d.host_src ++ codes "\t" ++ d.host_dst ++ codes "\t(" ++ d.latest_proto ++ codes ")\n")
    ∷ (codes "\tHits: " ++ hits_text (total d.hit_count % 4294967296) ++ codes "\n")
    ∷ (codes "\t" ++ d.latest_message ++ codes "\n")
    ∷ []

abbrev pub lines_of : List EventData → List Bytes
lines_of [] = []
lines_of (d ∷ ds) = item_report d ++ lines_of ds

-- The report: the first `print_max_items` items between the head and the number of all items.
unfoldable pub report : (ℤ → Bytes) → Config → ℤ → List EventData → List Bytes
report time_text c now items =
    (codes "Snort scan: timespan="
        ++ decimal_ℤ c.timespan_seconds
        ++ codes " sec, current time="
        ++ time_text now
        ++ codes "\n")
      ∷ codes "\n"
      ∷ codes "SRC HOST\tDST HOST\tPROTO\n"
      ∷ lines_of (take (pos_part c.print_max_items) items)
    ++ codes "\n" ∷ (codes "Count: " ++ decimal (length items) ++ codes "\n") ∷ []

append_all-append :
    (xs ys : List Bytes) (more : Option (List Bytes))
    → append_all (xs ++ ys) more ≡ append_all xs (append_all ys more)
append_all-append [] ys more = refl
append_all-append (x ∷ xs) ys more = rw (append_all-append xs ys more) refl

append_all-short :
    (ls : List Bytes) → append_all ls (some []) ≡ (if all_short ls then some ls else none)
unfolding all_short
append_all-short [] = refl
append_all-short (l ∷ ls) = elim (Bool-cases (ltb (length l) 512)) [
  | inr e ↦ rw e refl
  | inl e ↦ elim (Bool-cases (all_short ls)) [
    | inl k ↦ rw (e, append_all-short ls, k) refl
    | inr k ↦ rw (e, append_all-short ls, k) refl
  ]
]

pub item_lines-report : (d : EventData) → item_lines d ≡ item_report d
item_lines-report d =
    ap
      (λ n.
        (d.host_src ++ codes "\t" ++ d.host_dst ++ codes "\t(" ++ d.latest_proto ++ codes ")\n")
        ∷ (codes "\tHits: " ++ hits_text n ++ codes "\n")
        ∷ (codes "\t" ++ d.latest_message ++ codes "\n")
        ∷ [])
      (sum_hits-total d)

rows-lines :
    (c : Config) (num : ℕ) (ds : List EventData) (rest : List Bytes)
    → rows c num ds rest
      ≡ append_all (lines_of (take (pos_part c.print_max_items - num) ds) ++ rest) (some [])
unfolding rows
rows-lines c num [] rest = rw (take_nil {A = EventData} (pos_part c.print_max_items - num)) refl
rows-lines c num (d ∷ ds) rest = elim (Bool-cases (ltb_ℤ (pos num) c.print_max_items)) [
  | inr e ↦ rw (e, none_left num c.print_max_items e) refl
  | inl e ↦
      let later =
        append_all (lines_of (take (pos_part c.print_max_items - suc num) ds) ++ rest) (some []) in
      rw (e, one_left num c.print_max_items e, rows-lines c (suc num) ds rest)
        (ap (λ ls. append_all ls later) (item_lines-report d))
]

-- `create_out` writes exactly the report: the title with the time span and the time, the names of the
-- columns, three lines for each of the first `print_max_items` items (attacker, target and protocol;
-- the hits as a signed integer of 32 bits; the message), and the number of all items. If one of these
-- lines has 512 bytes or more, it writes past `out->s`.
pub create_out-report :
    (time_text : ℤ → Bytes) (c : Config) (now : ℤ) (items : List EventData)
    → create_out time_text c now items ≡ (
        if all_short (report time_text c now items)
        then some (report time_text c now items)
        else none)
unfolding create_out report
create_out-report time_text c now items =
    rw
      (
        rows-lines c 0 items (codes "\n" ∷ count_line (length items) ∷ []),
        sub_zero (pos_part c.print_max_items),
      )
      (append_all-short (report time_text c now items))
