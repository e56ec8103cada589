-- ===== src/Snort/Heard.antt =====
-- What a table should hold of the alerts that were heard: the newest of them first.
use sntools.Base.{
  ℕ, ◌+◌, ◌%◌, ◌≤◌, ◌<◌, ◌≡◌, refl, Bool, true, false, ◌&&◌, not, Option, none, some, List, [], ◌∷◌,
  arith, if◌then◌else◌, inl, inr, Bool-cases, length, count, ℤ, ◌≤ℤ◌, ltb_ℤ, Bytes, str_eq, All,
}
use sntools.Snort.Alert.{Config, Scan, ignored, overflow, alert, scan}
use sntools.Snort.Watch.{Event, line_read, request}
use sntools.Snort.{
  HitCount, EventData, AlertData, two_32, sum_loop, sum_hits, remove_loop, remove_hit_count_before,
}

abbrev pub is_from : Bytes → Bytes → ℤ × AlertData → Bool
is_from src dst x = if str_eq src x.1.source then str_eq dst x.1.target else false

-- An alert for the pair that is not older than `before`.
abbrev pub is_recent : ℤ → Bytes → Bytes → ℤ × AlertData → Bool
is_recent before src dst x = is_from src dst x && not (ltb_ℤ x.0 before)

-- The last alert for a pair.
unfoldable pub last_alert : List (ℤ × AlertData) → Bytes → Bytes → Option AlertData
last_alert [] src dst = none
last_alert (x ∷ heard) src dst = if is_from src dst x then some x.1 else last_alert heard src dst

-- The hits of an item, and those not older than `before`.
abbrev pub total : List HitCount → ℕ
total [] = 0
total (c ∷ cs) = c.hits + total cs

abbrev pub recent_total : ℤ → List HitCount → ℕ
recent_total before [] = 0
recent_total before (c ∷ cs) = (if ltb_ℤ c.ts before then 0 else c.hits) + recent_total before cs

-- What an item says of the last alert.
abbrev pub latest : EventData → AlertData
latest item = record {
  proto = item.latest_proto;
  source = item.host_src;
  target = item.host_dst;
  message = item.latest_message;
  prio = item.latest_prio;
}

-- The hits of an item are alerts for its pair, and all those not older than `before`.
pub record HitsKnown (before : ℤ) (heard : List (ℤ × AlertData)) (item : EventData) : Type 0 where
  pub recent :
      recent_total before item.hit_count
      ≡ count (is_recent before item.host_src item.host_dst) heard
  pub no_more : total item.hit_count ≤ count (is_from item.host_src item.host_dst) heard

abbrev pub LatestKnown : List (ℤ × AlertData) → EventData → Type 0
LatestKnown heard item = last_alert heard item.host_src item.host_dst ≡ some (latest item)

remove_loop-total :
    (before cut : ℤ) (cs : List HitCount)
    → cut ≤ℤ before
    → (recent_total before (remove_loop cs cut).0 ≡ recent_total before cs)
      × (total (remove_loop cs cut).0 ≤ total cs)
unfolding remove_loop
remove_loop-total before cut [] h = (refl, omega arith)
remove_loop-total before cut (c ∷ cs) h =
    let (e, l) = remove_loop-total before cut cs h in
    elim (Bool-cases (ltb_ℤ c.ts cut)) [
      | inl f ↦
          let older : ltb_ℤ c.ts before ≡ true = ground arith in
          rw (f, older) (omega (arith, e), omega (arith, l))
      | inr f ↦ rw f (refl, omega arith)
    ]

-- A clean-up up to `cut` keeps what is known since then.
pub remove_hit_count_before-Known :
    (before cut : ℤ) (heard latest_heard : List (ℤ × AlertData)) (items : List EventData)
    → cut ≤ℤ before
    → All (λ x. HitsKnown before heard x × LatestKnown latest_heard x) items
    → All
        (λ x. HitsKnown before heard x × LatestKnown latest_heard x)
        (remove_hit_count_before items cut)
unfolding remove_hit_count_before
remove_hit_count_before-Known before cut heard lh [] h ks = tt
remove_hit_count_before-Known before cut heard lh (x ∷ items) h ((k, l), ks) =
    let (e, m) = remove_loop-total before cut x.hit_count h in
    let known : HitsKnown before heard (record x { hit_count = (remove_loop x.hit_count cut).0 }) =
      record { recent = rw e k.recent; no_more = omega (arith, m, k.no_more) } in
    elim (Bool-cases (remove_loop x.hit_count cut).1) [
      | inl f ↦ rw f ((known, l), ks)
      | inr f ↦ rw f ((known, l), remove_hit_count_before-Known before cut heard lh items h ks)
    ]

sum_loop-total :
    (sum : ℕ) (cs : List HitCount) → sum < two_32 → sum_loop sum cs ≡ (sum + total cs) % two_32
unfolding sum_loop
sum_loop-total sum [] h = omega arith
sum_loop-total sum (c ∷ cs) h =
    let more = sum_loop-total ((sum + c.hits) % two_32) cs (omega arith) in omega (arith, more)

pub sum_hits-total : (item : EventData) → sum_hits item ≡ total item.hit_count % two_32
unfolding sum_hits
sum_hits-total item = omega (arith, sum_loop-total 0 item.hit_count (omega arith))

-- The alerts of the events behind those that were heard before, the newest first.
abbrev pub hear : (now : ℤ) → Scan → List (ℤ × AlertData) → List (ℤ × AlertData)
hear now ignored heard = heard
hear now overflow heard = heard
hear now (alert a) heard = (now, a) ∷ heard

abbrev pub hear_event : Config → Event → List (ℤ × AlertData) → List (ℤ × AlertData)
hear_event c (line_read now drawn line) heard = hear now (scan c.strip_src_port line) heard
hear_event c request heard = heard

abbrev pub heard_in : Config → List Event → List (ℤ × AlertData) → List (ℤ × AlertData)
heard_in c [] heard = heard
heard_in c (e ∷ es) heard = heard_in c es (hear_event c e heard)

hear-length :
    (now : ℤ) (s : Scan) (heard : List (ℤ × AlertData))
    → length (hear now s heard) ≤ 1 + length heard
hear-length now ignored heard = omega arith
hear-length now overflow heard = omega arith
hear-length now (alert a) heard = omega arith

pub heard_in-length :
    (c : Config) (events : List Event) (heard : List (ℤ × AlertData))
    → length (heard_in c events heard) ≤ length events + length heard
heard_in-length c [] heard = omega arith
heard_in-length c (request ∷ es) heard = omega (arith, heard_in-length c es heard)
heard_in-length c (line_read now drawn line ∷ es) heard =
    let s = scan c.strip_src_port line in
    omega (arith, heard_in-length c es (hear now s heard), hear-length now s heard)
