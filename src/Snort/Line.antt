-- ===== src/Snort/Line.antt =====
-- `main` reads back an alert of snort: its parts are those that the line is printed from.
use sntools.Base.{
  ℕ, ◌+◌, ◌^◌, ◌<◌, ◌≡◌, refl, ap, ◌∙◌, Bool, some, [], ◌∷◌, ◌++◌, append_assoc, arith,
  if◌then◌else◌, length, length-append, drop, ℤ, pos, sub_ℕ-add, Bytes, codes, atoi, skip_space,
  find, copy_n, copy_n-append, decimal, Lacks, Misses, find-append, find-Misses, drop-past, NoDigit,
  atoi-decimal,
}
use sntools.Snort.Alert.{alert, strip_port, find_prio, copy_alert, scan}

abbrev blank : ℕ
blank = 32

-- The parts of a line, as
-- `10/07 [**] SNMP access [**] [Priority: 2] {UDP} 10.0.0.1:60860 -> 10.0.0.2:161`.
pub record Alert : Type 0 where
  pub intro : Bytes
  pub prio : ℕ
  pub closing : Bytes
  pub proto : Bytes
  pub source : Bytes
  pub target : Bytes

abbrev pub message : Alert → Bytes
message a = a.intro ++ (codes "Priority:" ++ blank ∷ (decimal a.prio ++ a.closing))

-- The text up to `{`, up to `}` and up to the arrow, and the text from the arrow on.
abbrev opening : Alert → Bytes
opening a = message a ++ blank ∷ []

abbrev named : Alert → Bytes
named a = opening a ++ b'{' ∷ a.proto

abbrev lead : Alert → Bytes
lead a = named a ++ b'}' ∷ blank ∷ a.source

abbrev tail : Alert → Bytes
tail a = codes " -> " ++ (a.target ++ codes "\n")

abbrev pub printed : Alert → Bytes
printed a = lead a ++ tail a

-- The text behind the message.
abbrev connection : Alert → Bytes
connection a = blank ∷ b'{' ∷ (a.proto ++ b'}' ∷ blank ∷ (a.source ++ tail a))

-- The priority, and what follows it.
abbrev pub priority : Alert → Bytes
priority a = codes "Priority:" ++ blank ∷ (decimal a.prio ++ (a.closing ++ connection a))

-- What the texts lack, and what fits.
pub record IsAlert (a : Alert) : Type 0 where
  pub first_priority : Misses (codes "Priority:") a.intro (priority a)
  pub closing_clean : NoDigit a.closing
  pub opening_clean : Lacks b'{' (opening a)
  pub named_clean : Lacks b'}' (named a)
  pub lead_clean : Lacks b'>' (lead a)
  pub prio_fits : a.prio < 2 ^ 31
  pub proto_fits : length a.proto < 10
  pub source_fits : length a.source < 128
  pub target_fits : length a.target < 128
  pub message_fits : length (message a) < 1024

copy_alert-parts :
    (strip : Bool) (line message proto source target u x y z : Bytes) (p0 p1 p2 : ℕ) (prio : ℤ)
    → line ≡ message ++ u
    → drop (p0 + 1) line ≡ proto ++ x
    → drop (p1 + 2) line ≡ source ++ y
    → drop (p2 + 4) line ≡ target ++ z
    → find_prio line ≡ prio
    → p0 ≡ length message + 1
    → p1 ≡ p0 + 1 + length proto
    → p2 ≡ p1 + 2 + length source
    → length line ≡ p2 + 5 + length target
    → length proto < 10
    → length source < 128
    → length target < 128
    → length message < 1024
    → copy_alert strip line p0 p1 p2
      ≡ alert (record {
        proto = proto;
        source = if strip then strip_port source else source;
        target = target;
        message = message;
        prio = prio;
      })
unfolding copy_alert
copy_alert-parts strip line message proto source target u x y z p0 p1 p2 prio d a b c e f g h k i j
      l m =
    let message_copied : copy_n 1024 (pos (length message)) line ≡ some message =
      ap (copy_n 1024 (pos (length message))) d ∙ copy_n-append 1024 message u m in
    rw
      (
        sub_ℕ-add p1 (p0 + 1) (length proto) g,
        a,
        copy_n-append 10 proto x i,
        copy_alert,
        sub_ℕ-add p2 (p1 + 2) (length source) h,
        b,
        copy_n-append 128 source y j,
        sub_ℕ-add (length line) (p2 + 5) (length target) k,
        c,
        copy_n-append 128 target z l,
        sub_ℕ-add p0 1 (length message) (omega arith),
        message_copied,
        e,
      )
      refl

scan-found :
    (strip : Bool) (line : Bytes) (p0 p1 p2 : ℕ)
    → find (codes "{") line ≡ some p0
    → find (codes "}") line ≡ some p1
    → find (codes " -> ") line ≡ some p2
    → scan strip line ≡ copy_alert strip line p0 p1 p2
unfolding scan
scan-found strip line p0 p1 p2 e f g = rw (e, scan, f, g) refl

find_prio-found :
    (intro rest : Bytes) (prio : ℕ)
    → Misses (codes "Priority:") intro (codes "Priority:" ++ blank ∷ (decimal prio ++ rest))
    → NoDigit rest
    → prio < 2 ^ 31
    → find_prio (intro ++ (codes "Priority:" ++ blank ∷ (decimal prio ++ rest))) ≡ pos prio
unfolding find_prio atoi skip_space
find_prio-found intro rest prio m h k =
    let found = find-Misses (codes "Priority:") intro (blank ∷ (decimal prio ++ rest)) m in
    rw
      (
        found,
        find_prio,
        drop-past intro (codes "Priority:" ++ blank ∷ (decimal prio ++ rest)) 9 (length intro + 9)
            refl,
      )
      (atoi-decimal prio rest (omega arith) h)

NoDigit-append : (s t : Bytes) → NoDigit s → NoDigit t → NoDigit (s ++ t)
NoDigit-append [] t h k = k
NoDigit-append (c ∷ s) t h k = h

module _ (a : Alert) (h : IsAlert a) where
  abbrev p0 : ℕ
  p0 = length (opening a)

  abbrev p1 : ℕ
  p1 = length (named a)

  abbrev p2 : ℕ
  p2 = length (lead a)

  -- The text behind `}` and a blank.
  abbrev addresses : Bytes
  addresses = a.source ++ tail a

  from_named : printed a ≡ named a ++ b'}' ∷ blank ∷ addresses
  from_named = append_assoc (named a) (b'}' ∷ blank ∷ a.source) (tail a)

  from_opening : printed a ≡ opening a ++ b'{' ∷ (a.proto ++ b'}' ∷ blank ∷ addresses)
  from_opening = from_named ∙ append_assoc (opening a) (b'{' ∷ a.proto) (b'}' ∷ blank ∷ addresses)

  from_message : printed a ≡ message a ++ connection a
  from_message =
      from_opening
      ∙ append_assoc (message a) (blank ∷ []) (b'{' ∷ (a.proto ++ b'}' ∷ blank ∷ addresses))

  length-opening : p0 ≡ length (message a) + 1
  length-opening = length-append (message a) (blank ∷ [])

  length-named : p1 ≡ p0 + 1 + length a.proto
  length-named = omega (arith, length-append (opening a) (b'{' ∷ a.proto))

  length-lead : p2 ≡ p1 + 2 + length a.source
  length-lead = omega (arith, length-append (named a) (b'}' ∷ blank ∷ a.source))

  length-printed : length (printed a) ≡ p2 + 5 + length a.target
  length-printed =
      omega (arith, length-append (lead a) (tail a), length-append a.target (codes "\n"))

  at_proto : drop (p0 + 1) (printed a) ≡ a.proto ++ b'}' ∷ blank ∷ addresses
  at_proto =
      ap (drop (p0 + 1)) from_opening
      ∙ drop-past (opening a) (b'{' ∷ (a.proto ++ b'}' ∷ blank ∷ addresses)) 1 (p0 + 1) refl

  at_source : drop (p1 + 2) (printed a) ≡ a.source ++ tail a
  at_source =
      ap (drop (p1 + 2)) from_named ∙ drop-past (named a) (b'}' ∷ blank ∷ addresses) 2 (p1 + 2) refl

  at_target : drop (p2 + 4) (printed a) ≡ a.target ++ codes "\n"
  at_target = drop-past (lead a) (tail a) 4 (p2 + 4) refl

  prio_found : find_prio (printed a) ≡ pos a.prio
  prio_found =
      let u = connection a in
      let split : printed a ≡ a.intro ++ priority a =
        from_message
        ∙ append_assoc a.intro (codes "Priority:" ++ blank ∷ (decimal a.prio ++ a.closing)) u
        ∙ ap (λ t. a.intro ++ (codes "Priority:" ++ blank ∷ t))
            (append_assoc (decimal a.prio) a.closing u) in
      ap find_prio split
      ∙ find_prio-found a.intro (a.closing ++ u) a.prio h.first_priority
          (NoDigit-append a.closing u h.closing_clean refl) h.prio_fits

  -- An alert of snort is scanned as the parts that it was printed from, its source without the port if
  -- that is to be stripped. Nothing that marks a part stands before its place (`{`, `}`, `>` and
  -- `Priority:`), and the parts fit their buffers.
  pub scan-printed_alert :
      (strip : Bool)
      → scan strip (printed a)
        ≡ alert (record {
          proto = a.proto;
          source = if strip then strip_port a.source else a.source;
          target = a.target;
          message = message a;
          prio = pos a.prio;
        })
  scan-printed_alert strip =
      let brace : find (codes "{") (printed a) ≡ some p0 =
        ap (find (codes "{")) from_opening
        ∙ find-append [] [] b'{' (opening a) (a.proto ++ b'}' ∷ blank ∷ addresses) tt
            h.opening_clean in
      let closing_brace : find (codes "}") (printed a) ≡ some p1 =
        ap (find (codes "}")) from_named
        ∙ find-append [] [] b'}' (named a) (blank ∷ addresses) tt h.named_clean in
      let arrow : find (codes " -> ") (printed a) ≡ some p2 =
        find-append (codes " -") (blank ∷ []) b'>' (lead a) (a.target ++ codes "\n")
          (refl, (refl, tt)) h.lead_clean in
      scan-found strip (printed a) p0 p1 p2 brace closing_brace arrow
      ∙ copy_alert-parts strip (printed a) (message a) a.proto a.source a.target (connection a)
          (b'}' ∷ blank ∷ addresses) (tail a) (codes "\n") p0 p1 p2 (pos a.prio) from_message
          at_proto at_source at_target prio_found length-opening length-named length-lead
          length-printed h.proto_fits h.source_fits h.target_fits h.message_fits
