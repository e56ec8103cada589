-- ===== src/Snort/Known.antt =====
-- What an alert does to what the table knows of the alerts that were heard.
use sntools.Base.{
  ℕ, ◌+◌, ◌≤◌, ◌≡◌, refl, ap, ◌∙◌, Bool, false, not, some, List, [], ◌∷◌, ◌++◌, arith,
  if◌then◌else◌, inl, inr, Bool-cases, Option-cases, modify, count, count-append, ℤ, pos, ◌-ℤ◌,
  ◌≤ℤ◌, ltb_ℤ, Bytes, All, All-append, All-mono,
}
use sntools.Pairs.{
  find_index, find_index-none, find_index-modify, count-modify, find_index-concat, All-modify_found,
  is_pair→eq, is_pair_refl,
}
use sntools.LinkedItems.{exceeds}
use sntools.LinkedItems.Bubble.Map.{All-sort_list}
use sntools.Snort.{
  HitCount, EventData, AlertData, is_pair, find_item, create_item, select_item, set_latest, add_hit,
  remove_loop, remove_hit_count_before, compare, record_alert,
}
use sntools.Snort.Keys.{
  AtMostOnce, count-record_alert, count-remove_hit_count_before, select_item-AtMostOnce,
  record_alert-AtMostOnce,
}
use sntools.Snort.Heard.{
  is_from, is_recent, last_alert, total, recent_total, HitsKnown, LatestKnown,
  remove_hit_count_before-Known,
}

-- One item for each pair that was heard, with what was heard of it.
pub record IsTable (before : ℤ) (heard : List (ℤ × AlertData)) (items : List EventData)
    : Type 0 where
  pub unique : AtMostOnce items
  pub known : All (λ x. HitsKnown before heard x × LatestKnown heard x) items
  pub covered :
      (src dst : Bytes) → count (is_pair src dst) items ≡ 0 → count (is_from src dst) heard ≡ 0

count_recent_le :
    (before : ℤ) (src dst : Bytes) (heard : List (ℤ × AlertData))
    → count (is_recent before src dst) heard ≤ count (is_from src dst) heard
count_recent_le before src dst [] = omega arith
count_recent_le before src dst (x ∷ heard) = ground (arith, count_recent_le before src dst heard)

abbrev new_item : Bytes → Bytes → EventData
new_item src dst = record {
  host_src = src;
  host_dst = dst;
  latest_proto = [];
  latest_message = [];
  latest_prio = pos 99;
  hit_count = [];
}

module _ (before now : ℤ) (a : AlertData) (heard : List (ℤ × AlertData)) where
  -- The alert's pair.
  abbrev is_its : EventData → Bool
  is_its = is_pair a.source a.target

  -- Behind the choice of the item.
  abbrev Selected : EventData → Type 0
  Selected x = HitsKnown before heard x × (is_its x ≡ false → LatestKnown heard x)

  abbrev Marked : EventData → Type 0
  Marked x = HitsKnown before heard x × LatestKnown ((now, a) ∷ heard) x

  abbrev Counted : EventData → Type 0
  Counted x = HitsKnown before ((now, a) ∷ heard) x × LatestKnown ((now, a) ∷ heard) x

  is_from-is_pair : (x : EventData) → is_from x.host_src x.host_dst (now, a) ≡ is_its x
  is_from-is_pair x = refl

  select_item-Selected :
      (items : List EventData)
      → IsTable before heard items
      → (find_index is_its (select_item items a.source a.target).0
          ≡ some (select_item items a.source a.target).1)
        × All Selected (select_item items a.source a.target).0
  unfolding select_item create_item find_item
  select_item-Selected items t =
      let old : All Selected items =
        All-mono (λ x. HitsKnown before heard x × LatestKnown heard x) Selected items
          (λ x k. (k.0, λ _. k.1)) t.known in
      elim (Option-cases (find_index is_its items)) [
        | inr (i, e) ↦ rw (e, select_item) (e, old)
        | inl e ↦
            let unheard = t.covered a.source a.target (find_index-none is_its items e) in
            let new_ok : HitsKnown before heard (new_item a.source a.target) = record {
              recent = omega (arith, unheard, count_recent_le before a.source a.target heard);
              no_more = omega arith;
            } in
            let its =
              is_pair_refl (λ item. item.host_src) (λ item. item.host_dst)
                (new_item a.source a.target) in
            rw (e, select_item)
              (
                find_index-concat is_its items (new_item a.source a.target) e its,
                All-append Selected items (new_item a.source a.target ∷ []) old
                    ((new_ok, λ f. cc (rw its at f)), tt),
              )
      ]

  set_latest-Marked :
      (i : ℕ) (items : List EventData)
      → find_index is_its items ≡ some i
      → AtMostOnce items
      → All Selected items
      → All Marked (modify i (set_latest a) items)
  unfolding set_latest last_alert
  set_latest-Marked i items e once ks =
      All-modify_found is_its Selected Marked (λ x f k. (k.0, rw f (k.1 f))) (set_latest a) i items
        e (once a.source a.target)
        (λ x t k.
          let (s, d) =
            is_pair→eq (λ item. item.host_src) (λ item. item.host_dst) a.source a.target x t in
          (record { recent = k.0.recent; no_more = k.0.no_more }, rw t (rw (s, d) refl)))
        ks

  add_hit-Counted :
      (i : ℕ) (items : List EventData)
      → find_index is_its items ≡ some i
      → AtMostOnce items
      → All Marked items
      → All Counted (modify i (add_hit 1 now) items)
  unfolding add_hit
  add_hit-Counted i items e once ks =
      All-modify_found is_its Marked Counted
        (λ x f k. (
          record {
            recent = rw f (omega (arith, k.0.recent));
            no_more = rw f (omega (arith, k.0.no_more));
          },
          k.1,
        ))
        (add_hit 1 now) i items e (once a.source a.target)
        (λ x t k. (
          record {
            recent = rw t (omega (arith, k.0.recent, recent_total-append x.hit_count));
            no_more = rw t (omega (arith, k.0.no_more, total-append x.hit_count));
          },
          k.1,
        ))
        ks
    where
      total-append :
          (cs : List HitCount) → total (cs ++ record { ts = now; hits = 1 } ∷ []) ≡ total cs + 1
      total-append [] = refl
      total-append (c ∷ cs) = omega (arith, total-append cs)

      recent_total-append :
          (cs : List HitCount)
          → recent_total before (cs ++ record { ts = now; hits = 1 } ∷ [])
            ≡ recent_total before cs + (if not (ltb_ℤ now before) then 1 else 0)
      recent_total-append [] = ground arith
      recent_total-append (c ∷ cs) = omega (arith, recent_total-append cs)

find_index-remove_hit_count_before :
    (src dst : Bytes) (items : List EventData) (cut : ℤ)
    → find_index (is_pair src dst) (remove_hit_count_before items cut)
      ≡ find_index (is_pair src dst) items
unfolding remove_hit_count_before find_index
find_index-remove_hit_count_before src dst [] cut = refl
find_index-remove_hit_count_before src dst (x ∷ items) cut =
    elim (Bool-cases (remove_loop x.hit_count cut).1) [
      | inl e ↦ rw e refl
      | inr e ↦ rw (e, find_index-remove_hit_count_before src dst items cut) refl
    ]

module _ (timespan before now : ℤ) (a : AlertData) (heard : List (ℤ × AlertData))
    (cut_ok : (now -ℤ timespan) ≤ℤ before) where
  record_alert-Counted :
      (items : List EventData)
      → IsTable before heard items
      → All (Counted before now a heard) (record_alert timespan now a items)
  unfolding record_alert set_latest
  record_alert-Counted items t =
      let its = is_pair a.source a.target in
      let xs = (select_item items a.source a.target).0 in
      let i = (select_item items a.source a.target).1 in
      let cut = now -ℤ timespan in
      let (found, selected) = select_item-Selected before now a heard items t in
      let once = (select_item-AtMostOnce items a.source a.target t.unique).0 in
      let marked = modify i (set_latest a) xs in
      let trimmed = remove_hit_count_before marked cut in
      let found1 : find_index its trimmed ≡ some i =
        find_index-remove_hit_count_before a.source a.target marked cut
        ∙ find_index-modify its (set_latest a) i xs (λ x. refl)
        ∙ found in
      let once1 : AtMostOnce trimmed = λ src dst.
        rw
          (
            count-remove_hit_count_before src dst marked cut,
            count-modify (is_pair src dst) (set_latest a) i xs (λ x. refl),
          )
          (once src dst) in
      All-sort_list (exceeds compare) (Counted before now a heard)
        (modify i (add_hit 1 now) trimmed)
        (add_hit-Counted before now a heard i trimmed found1 once1 (
          remove_hit_count_before-Known before cut heard ((now, a) ∷ heard) marked cut_ok
            (set_latest-Marked before now a heard i xs found once selected)))

  select_item-le :
      (src dst : Bytes) (items : List EventData)
      → count (is_pair src dst) items
        ≤ count (is_pair src dst) (select_item items a.source a.target).0
  unfolding select_item create_item find_item
  select_item-le src dst items =
      elim (Option-cases (find_index (is_pair a.source a.target) items)) [
        | inr (i, e) ↦ rw (e, select_item) (omega arith)
        | inl e ↦
            rw (e, select_item)
              (omega
                (arith, count-append (is_pair src dst) items (new_item a.source a.target ∷ [])))
      ]

  -- An alert is added to what the table knows.
  pub record_alert-IsTable :
      (items : List EventData)
      → IsTable before heard items
      → IsTable before ((now, a) ∷ heard) (record_alert timespan now a items)
  record_alert-IsTable items t =
      let (once, one, _) = record_alert-AtMostOnce timespan now a items t.unique in
      record {
        unique = once;
        known = record_alert-Counted items t;
        covered = λ src dst h.
            let none_before : count (is_pair src dst) items ≡ 0 = omega (
              arith,
              select_item-le src dst items,
              h,
              count-record_alert src dst timespan now a items,
            ) in
            let unheard = t.covered src dst none_before in
            elim (Bool-cases (is_from src dst (now, a))) [
              | inr e ↦ rw e (omega (arith, unheard))
              | inl e ↦
                  let (s, d) =
                    is_pair→eq (λ item. item.host_src) (λ item. item.host_dst) a.source a.target
                      (new_item src dst) e in
                  let its : count (is_pair src dst) (record_alert timespan now a items) ≡ 1 =
                    ap (λ n. count (is_pair n dst) (record_alert timespan now a items)) s
                    ∙ ap (λ n. count (is_pair a.source n) (record_alert timespan now a items)) d
                    ∙ one in
                  let no_room : ⊥ = omega (arith, its, h) in elim no_room [ ]
            ];
      }
