-- ===== src/LinkedItems/Tests.antt =====
-- The program linked_items_test.c builds, and the theorems at its list.
use sntools.Base.{
  ℕ, ◌≡◌, refl, true, false, none, some, [], ◌∷◌, arith, ltb, ◌==◌, if◌then◌else◌, ℤ, pos,
}
use sntools.Memory.{
  Ptr, null, Item, item, Heap, write, ok, Cmd, ◌>>=◌, ◌>>◌, pure, load, get_next, get_prev,
  set_next, set_prev, alloc, free, Returns, returns,
}
use sntools.LinkedItems.{
  append, create, count_loop, count, remove, free_all, exceeds, sort_pass, sort_rounds, sort,
}
use sntools.LinkedItems.Chain.{Cells, Zip, Chain, Zip-next}
use sntools.LinkedItems.Edit.{Removed, Inserted, remove-Removed, append-Inserted}
use sntools.LinkedItems.Create.{create-Inserted}
use sntools.LinkedItems.Walk.{Without, count-length, free_all-Without}
use sntools.LinkedItems.Bubble.{IsStrictOrder}
use sntools.LinkedItems.Sort.{Sorts}
use sntools.LinkedItems.Sorted.{Ordered, sort-Ordered}

abbrev junk : ℕ → Item ℕ
junk v = item 77 78 v

-- `tb->sort > ta->sort ? 1 : 0`
abbrev by_sort : ℕ → ℕ → ℤ
by_sort a b = if ltb a b then pos 1 else pos 0

-- item1, then item3 and item2 each behind item1; then sorted.
three : Cmd ℕ (Ptr × ℕ)
unfolding write load get_next get_prev set_next set_prev alloc free append create count count_loop
    remove sort sort_rounds sort_pass
three = do
  a ← create 1 (junk 10) null
  create 3 (junk 30) a
  b ← create 2 (junk 20) a
  remove b
  append a b
  s ← sort by_sort 10 10 a
  n ← count 4 s
  pure (s, n)

three_runs :
    Returns
      (λ r g.
        (r ≡ (3, 3))
        × (g 3 ≡ some (item 0 2 30))
        × (g 2 ≡ some (item 3 1 20))
        × (g 1 ≡ some (item 2 0 10)))
      (three λ _. none)
unfolding three
three_runs = returns (refl, refl, refl, refl)

abbrev heap : Heap ℕ
heap p =
    if p == 1
    then some (item 0 2 10)
    else if p == 2
    then some (item 1 3 20)
    else if p == 3
    then some (item 2 0 30)
    else if p == 9
    then some (junk 90)
    else none

abbrev cells : Cells ℕ
cells = (1, 10) ∷ (2, 20) ∷ (3, 30) ∷ []

heap-Chain : Chain heap cells
heap-Chain = record {
  back = tt;
  forth = (refl, (refl, (refl, tt)));
  before_ok = tt;
  after_ok = (refl, refl, (refl, refl, (refl, refl, tt)));
  apart = tt;
}

heap-Zip : Zip heap ((1, 10) ∷ []) ((2, 20) ∷ (3, 30) ∷ [])
heap-Zip = Zip-next 1 10 heap-Chain

remove-Removed_example :
    Returns (λ _. Removed heap ((1, 10) ∷ []) 2 20 ((3, 30) ∷ [])) (remove 2 heap)
remove-Removed_example = remove-Removed 2 20 ((1, 10) ∷ []) ((3, 30) ∷ []) heap-Zip

append-Inserted_example :
    Returns (λ _. Inserted heap ((1, 10) ∷ []) 9 90 ((2, 20) ∷ (3, 30) ∷ [])) (append 1 9 heap)
append-Inserted_example =
    append-Inserted 9 90 77 78 1 10 [] ((2, 20) ∷ (3, 30) ∷ [])
      (record { live = refl; holds = refl }) refl refl heap-Zip

create-Inserted_example :
    Returns
      (λ r g. (r ≡ 5) × Inserted heap ((1, 10) ∷ []) 5 50 ((2, 20) ∷ (3, 30) ∷ []) g)
      (create 5 (junk 50) 1 heap)
create-Inserted_example =
    create-Inserted heap 5 (junk 50) 1 10 [] ((2, 20) ∷ (3, 30) ∷ []) refl refl refl heap-Zip

count-length_example : count 4 1 heap ≡ ok 3 heap
count-length_example = count-length 4 cells heap-Chain (omega arith)

free_all-Without_example : Returns (λ _. Without cells heap) (free_all 4 1 none heap)
free_all-Without_example = free_all-Without 4 cells heap-Chain (omega arith) none tt

by_sort_asym : (a b : ℕ) → exceeds by_sort a b ≡ true → exceeds by_sort b a ≡ false
by_sort_asym a b h = ground arith

by_sort_trans :
    (a b c : ℕ)
    → exceeds by_sort a b ≡ false
    → exceeds by_sort b c ≡ false
    → exceeds by_sort a c ≡ false
by_sort_trans a b c h k = ground arith

by_sort-IsStrictOrder : IsStrictOrder (exceeds by_sort)
by_sort-IsStrictOrder = record { asym = by_sort_asym; trans = by_sort_trans }

sort-Ordered_example :
    Returns
      (λ s g.
        (ys : Cells ℕ) × Sorts heap cells ys s g × Ordered by_sort by_sort-IsStrictOrder cells ys)
      (sort by_sort 10 7 1 heap)
sort-Ordered_example =
    sort-Ordered by_sort by_sort-IsStrictOrder 10 7 cells heap-Chain (omega arith) (omega arith)
