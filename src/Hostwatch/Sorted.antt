-- ===== src/Hostwatch/Sorted.antt =====
-- The compare function of hostwatch orders, so `linked_item_sort` sorts the table by it.
use mathlib.Core.List.{Perm}
use sntools.Base.{ℕ, ◌≤◌, ◌*◌, ◌<◌, map, length, ◌≡◌, List, [], ◌∷◌, arith, count, All}
use sntools.Memory.{Heap, Returns, mono}
use sntools.LinkedItems.{exceeds, sort}
use sntools.LinkedItems.Chain.{Cells, first, Chain}
use sntools.LinkedItems.Sort.{Sorts}
use sntools.LinkedItems.Sorted.{payload, sort-Ordered}
use sntools.LinkedItems.Bubble.{
  IsStrictOrder, sort_list, IsSorted, sort_list-perm, sort_list-IsSorted,
}
use sntools.Hostwatch.{HostData, compare}

pub compare-IsStrictOrder : IsStrictOrder (exceeds compare)
unfolding compare
compare-IsStrictOrder = record { asym = λ a b h. ground arith; trans = λ a b c h k. ground arith }

-- By falling sums.
abbrev pub Descending : List HostData → Type 0
Descending [] = Unit
Descending (x ∷ xs) = All (λ y. y.byte_sum ≤ x.byte_sum) xs × Descending xs

count-All :
    (x : HostData) (xs : List HostData)
    → count (exceeds compare x) xs ≡ 0
    → All (λ y. y.byte_sum ≤ x.byte_sum) xs
unfolding compare
count-All x [] h = tt
count-All x (y ∷ ys) h = (ground arith, count-All x ys (ground arith))

IsSorted-Descending : (xs : List HostData) → IsSorted (exceeds compare) xs → Descending xs
IsSorted-Descending [] s = tt
IsSorted-Descending (x ∷ xs) (h, s) = (count-All x xs h, IsSorted-Descending xs s)

-- The table that `linked_item_sort` makes with `compare` holds the same items, the greatest sums
-- first.
pub sort_list-Descending :
    (items : List HostData)
    → Descending (sort_list (exceeds compare) items)
      × Perm (sort_list (exceeds compare) items) items
sort_list-Descending items = (
  IsSorted-Descending (sort_list (exceeds compare) items)
      (sort_list-IsSorted (exceeds compare) compare-IsStrictOrder items),
  sort_list-perm (exceeds compare) items,
)

-- `linked_item_sort` with `compare` on a well-linked chain of items ends, within (number of items)²
-- + 1 passes, with the same items well-linked, the greatest sums first, and nothing else changed.
sort-Descending :
    (k inner : ℕ) (xs : Cells HostData) {h : Heap HostData}
    → Chain h xs
    → length xs * length xs < k
    → 2 * length xs < inner
    → Returns
        (λ s g.
          (ys : Cells HostData) × Sorts h xs ys s g × Perm ys xs × Descending (map payload ys))
        (sort compare k inner (first xs) h)
sort-Descending k inner xs chain many fuel =
    mono (sort-Ordered compare compare-IsStrictOrder k inner xs chain many fuel) λ s g (ys, d, o).
      (ys, d, o.same_items, rw o.payloads (sort_list-Descending (map payload xs)).0)
