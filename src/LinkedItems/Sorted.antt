-- ===== src/LinkedItems/Sorted.antt =====
-- What `linked_item_sort` promises its callers, for an order of the payloads.
use mathlib.Core.List.{Perm}
use sntools.Base.{ℕ, ◌*◌, ◌<◌, ◌≡◌, map, length, ℤ}
use sntools.Memory.{Ptr, Heap, Returns, mono}
use sntools.LinkedItems.{exceeds, sort}
use sntools.LinkedItems.Chain.{Cells, first, Chain}
use sntools.LinkedItems.Bubble.{
  IsStrictOrder, sort_list, IsSorted, sort_list-perm, sort_list-IsSorted,
}
use sntools.LinkedItems.Bubble.Map.{IsStrictOrder-on, map-sort_list}
use sntools.LinkedItems.Sort.{above, Sorts, sort-sort_list}

abbrev pub payload : {A : Type 0} → Ptr × A → A
payload c = c.1

module _ {A : Type 0} (cf : A → A → ℤ) (o : IsStrictOrder (exceeds cf)) where
  -- The chain after the sort: the same items, each in order with all behind it, and with the
  -- payloads that the list function makes of the payloads.
  pub record Ordered (xs ys : Cells A) : Type 0 where
    pub same_items : Perm ys xs
    pub sorted : IsSorted (above cf) ys
    pub payloads : map payload ys ≡ sort_list (exceeds cf) (map payload xs)

  -- Given a compare function that orders the payloads, `linked_item_sort` on a well-linked chain ends
  -- within (number of items)² + 1 passes of at most twice the number of items + 1 rounds each. It
  -- leaves a well-linked chain of the same items in order, returns its first item, and changes nothing
  -- outside the chain.
  pub sort-Ordered :
      (k inner : ℕ) (xs : Cells A) {h : Heap A}
      → Chain h xs
      → length xs * length xs < k
      → 2 * length xs < inner
      → Returns
          (λ s g. (ys : Cells A) × Sorts h xs ys s g × Ordered xs ys)
          (sort cf k inner (first xs) h)
  sort-Ordered k inner xs chain many fuel =
      let o' = IsStrictOrder-on payload (exceeds cf) o in
      mono (sort-sort_list cf o' k inner xs chain many fuel) λ s g d. (
        sort_list (above cf) xs,
        d,
        record {
          same_items = sort_list-perm (above cf) xs;
          sorted = sort_list-IsSorted (above cf) o' xs;
          payloads = map-sort_list payload (exceeds cf) xs;
        },
      )
