-- ===== src/LinkedItems.antt =====
-- src/lib/linked_items.c: a doubly linked list threaded through the first member of each struct.
-- Pointers are addresses of Memory's heap; `fresh` is the pointer that `malloc` returns. The loops
-- run on fuel. `int c` counts items in memory, which are fewer than 2 ^ 31.
pub mod Chain
pub mod Edit
pub mod Create
pub mod Walk
pub mod Bubble
pub mod Sort
pub mod Sorted
mod Tests
use sntools.Base.{
  ℕ, zero, suc, ◌+◌, Bool, true, false, Option, none, some, ◌==◌, if◌then◌else◌, ℤ, pos, ltb_ℤ,
}
use sntools.Memory.{
  Ptr, null, Item, Cmd, out_of_fuel, pure, ◌>>=◌, ◌>>◌, load, get_next, get_prev, set_next,
  set_prev, alloc, free,
}

module _ {A : Type 0} where
  -- `__linked_item_append`: insert `item` behind `prev`. Each mention of `prev->next` is a read.
  unfoldable pub append : (prev item : Ptr) → Cmd A (Unit {0})
  append prev item = do
    set_prev item null
    set_next item null
    if prev == null then pure tt else do
      n ← get_next prev
      if n == null
          then pure tt
          else do set_next item (← get_next prev); set_prev (← get_next prev) item
      set_next prev item
      set_prev item prev

  -- `linked_item_create`; a failed `malloc` is dereferenced by the append.
  unfoldable pub create : (fresh : Ptr) (junk : Item A) (prev : Ptr) → Cmd A Ptr
  create fresh junk prev = do p ← alloc fresh junk; append prev p; pure p

  -- `__linked_item_count`
  unfoldable pub count_loop : ℕ → (curr : Ptr) (c : ℕ) → Cmd A ℕ
  count_loop zero curr c = λ _. out_of_fuel
  count_loop (suc k) curr c =
      if curr == null then pure c else do n ← get_next curr; count_loop k n (c + 1)

  unfoldable pub count : ℕ → (start : Ptr) → Cmd A ℕ
  unfolding count_loop
  count k start = count_loop k start 0

  -- `__linked_item_last`
  unfoldable pub last_loop : ℕ → (curr : Ptr) → Cmd A Ptr
  last_loop zero curr = λ _. out_of_fuel
  last_loop (suc k) curr =
      if curr == null
      then pure null
      else do n ← get_next curr; if n == null then pure curr else last_loop k n

  unfoldable pub last : ℕ → (start : Ptr) → Cmd A Ptr
  unfolding last_loop
  last k start = last_loop k start

  -- `__linked_item_remove`
  unfoldable pub remove : (item : Ptr) → Cmd A (Unit {0})
  remove item = do
    p ← get_prev item
    n ← get_next item
    if p == null
        then (if n == null then pure tt else do set_prev (← get_next item) null)
        else (if n == null then (do set_next (← get_prev item) null) else (do
          set_next (← get_prev item) (← get_next item)
          set_prev (← get_next item) (← get_prev item)))

  -- `__linked_item_free`; the callback may be NULL.
  unfoldable pub free_loop : ℕ → (curr : Ptr) → Option (Ptr → Cmd A (Unit {0})) → Cmd A (Unit {0})
  free_loop zero curr callback = λ _. out_of_fuel
  free_loop (suc k) curr callback = if curr == null then pure tt else do
    n ← get_next curr
    elim callback [ none ↦ pure tt | some f ↦ f curr ]
    free curr
    free_loop k n callback

  unfoldable pub free_all : ℕ → (start : Ptr) → Option (Ptr → Cmd A (Unit {0})) → Cmd A (Unit {0})
  unfolding free_loop
  free_all k start callback = free_loop k start callback

module _ {A : Type 0} (compare_function : A → A → ℤ) where
  -- `comp > 0` on the payloads of two items
  abbrev pub exceeds : A → A → Bool
  exceeds a b = ltb_ℤ (pos 0) (compare_function a b)

  -- The inner loop of `__linked_item_sort`: the new start, and how often it swapped.
  unfoldable pub sort_pass : ℕ → (start last curr : Ptr) (changed : ℕ) → Cmd A (Ptr × ℕ)
  sort_pass zero start last curr changed = λ _. out_of_fuel
  sort_pass (suc k) start last curr changed =
      if curr == null
      then pure (start, changed)
      else if last == null
      then (do n ← get_next curr; sort_pass k start curr n changed)
      else do
        a ← load last
        b ← load curr
        if exceeds a.payload b.payload
            then (do
              remove last
              append curr last
              n ← get_next curr
              sort_pass k (if last == start then curr else start) curr n (changed + 1))
            else (do n ← get_next curr; sort_pass k start curr n changed)

  -- The `do … while (changed > 0)`; `inner` is the fuel of each pass.
  unfoldable pub sort_rounds : ℕ → (inner : ℕ) (start : Ptr) → Cmd A Ptr
  sort_rounds zero inner start = λ _. out_of_fuel
  sort_rounds (suc k) inner start = do
    (s, changed) ← sort_pass inner start null start 0
    if changed == 0 then pure s else sort_rounds k inner s

  -- `__linked_item_sort`
  unfoldable pub sort : (rounds inner : ℕ) (start : Ptr) → Cmd A Ptr
  sort rounds inner start = if start == null then pure start else sort_rounds rounds inner start
