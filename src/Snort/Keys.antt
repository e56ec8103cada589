-- ===== src/Snort/Keys.antt =====
-- The table keeps one item for each attacker and target, in the order of the scores.
use sntools.Base.{
  ◌≡◌, refl, ◌∙◌, List, [], ◌∷◌, arith, inl, inr, Bool-cases, Option-cases, modify, count,
  count-append, ℤ, pos, ◌-ℤ◌, Bytes,
}
use sntools.Pairs
use sntools.Pairs.{
  find_index, find_index-none, find_index-some, count-modify, concat-AtMostOnce, is_pair_refl,
}
use sntools.LinkedItems.{exceeds}
use sntools.LinkedItems.Bubble.{IsStrictOrder, IsSorted, sort_list-IsSorted}
use sntools.LinkedItems.Bubble.Map.{count-sort_list}
use sntools.Snort.{
  EventData, AlertData, is_pair, find_item, create_item, select_item, set_latest, add_hit,
  remove_loop, remove_hit_count_before, compare, record_alert,
}

pub compare-IsStrictOrder : IsStrictOrder (exceeds compare)
unfolding compare
compare-IsStrictOrder = record { asym = λ a b h. ground arith; trans = λ a b c h k. ground arith }

-- No two items have the same two hosts.
abbrev pub AtMostOnce : List EventData → Type 0
AtMostOnce = Pairs.AtMostOnce (λ item. item.host_src) (λ item. item.host_dst)

module _ (src dst : Bytes) where
  pub count-remove_hit_count_before :
      (items : List EventData) (before : ℤ)
      → count (is_pair src dst) (remove_hit_count_before items before)
        ≡ count (is_pair src dst) items
  unfolding remove_hit_count_before
  count-remove_hit_count_before [] before = refl
  count-remove_hit_count_before (x ∷ items) before =
      elim (Bool-cases (remove_loop x.hit_count before).1) [
        | inl e ↦ rw e refl
        | inr e ↦ rw (e, count-remove_hit_count_before items before) refl
      ]

  -- Behind the choice of the item nothing changes the number of items of a pair.
  pub count-record_alert :
      (timespan now : ℤ) (a : AlertData) (items : List EventData)
      → count (is_pair src dst) (record_alert timespan now a items)
        ≡ count (is_pair src dst) (select_item items a.source a.target).0
  unfolding record_alert set_latest add_hit
  count-record_alert timespan now a items =
      let r = select_item items a.source a.target in
      let items2 = remove_hit_count_before (modify r.1 (set_latest a) r.0) (now -ℤ timespan) in
      count-sort_list (exceeds compare) (is_pair src dst) (modify r.1 (add_hit 1 now) items2)
      ∙ count-modify (is_pair src dst) (add_hit 1 now) r.1 items2 (λ x. refl)
      ∙ count-remove_hit_count_before (modify r.1 (set_latest a) r.0) (now -ℤ timespan)
      ∙ count-modify (is_pair src dst) (set_latest a) r.1 r.0 (λ x. refl)

pub select_item-AtMostOnce :
    (items : List EventData) (src dst : Bytes)
    → AtMostOnce items
    → AtMostOnce (select_item items src dst).0
      × (count (is_pair src dst) (select_item items src dst).0 ≡ 1)
unfolding select_item create_item find_item
select_item-AtMostOnce items src dst once =
    let p = is_pair src dst in
    elim (Option-cases (find_index p items)) [
      | inr (i, e) ↦
          rw (e, select_item) (once, omega (arith, once src dst, find_index-some p items i e))
      | inl e ↦
          let new : EventData = record {
            host_src = src;
            host_dst = dst;
            latest_proto = [];
            latest_message = [];
            latest_prio = pos 99;
            hit_count = [];
          } in
          let before = find_index-none p items e in
          rw (e, select_item)
            (
              concat-AtMostOnce (λ item. item.host_src) (λ item. item.host_dst) items new before
                  once,
              count-append p items (new ∷ [])
                  ∙ rw (before, is_pair_refl (λ item. item.host_src) (λ item. item.host_dst) new)
                      refl,
            )
    ]

-- An alert, on a table with at most one item for each attacker and target, leaves such a table, with
-- exactly one item for the alert's pair, and each item in order with all behind it by their scores.
pub record_alert-AtMostOnce :
    (timespan now : ℤ) (a : AlertData) (items : List EventData)
    → AtMostOnce items
    → AtMostOnce (record_alert timespan now a items)
      × (count (is_pair a.source a.target) (record_alert timespan now a items) ≡ 1)
      × IsSorted (exceeds compare) (record_alert timespan now a items)
unfolding record_alert
record_alert-AtMostOnce timespan now a items once =
    let (one, found) = select_item-AtMostOnce items a.source a.target once in
    (
      λ src dst. rw (count-record_alert src dst timespan now a items) (one src dst),
      count-record_alert a.source a.target timespan now a items ∙ found,
      sort_list-IsSorted (exceeds compare) compare-IsStrictOrder _,
    )
