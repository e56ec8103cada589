-- ===== src/Hostwatch/Report.antt =====
-- The report holds the busiest pairs of hosts.
use mathlib.Core.List.{Perm}
use sntools.Base.{
  take_nil, none_left, one_left, sub_zero, ℕ, zero, suc, ◌+◌, ◌-◌, ◌^◌, ◌≤◌, ◌<◌, ◌⊎◌, ◌≡◌, refl,
  ap, some, List, [], ◌∷◌, ◌++◌, map, arith, inl, inr, Bool-cases, ◌==◌, ==→eq, length, take,
  get_elem?, get_elem?-lt, ltb, ℤ, pos, pos_part, ◌-ℤ◌, ltb_ℤ, two_64, Bytes, codes, decimal, All,
  All-mono,
}
use sntools.LinkedItems.{exceeds}
use sntools.LinkedItems.Bubble.{sort_list}
use sntools.LinkedItems.Bubble.Map.{All-sort_list}
use sntools.Hostwatch.{HostData, compare, cleanup_host_data}
use sntools.Hostwatch.Window.{IsItem, EachCleaned, cleanup_host_data-Cleaned}
use sntools.Hostwatch.Packet.{Config}
use sntools.Hostwatch.Sorted.{Descending, sort_list-Descending}
use sntools.Hostwatch.Output.{
  units, row_text, unit_loop, readable_bytes, row, rows, head_line, titles, create_out,
}

-- The unit for `n` bytes: the quotient is at most 1024, and more than 1 from `kB` on.
pub record IsUnit (n i : ℕ) : Type 0 where
  pub small : i ≤ 6
  pub upper : n ≤ 1024 ^ suc i
  pub lower : (i ≡ 0) ⊎ (1024 ^ i < n)

still_small : (n i : ℕ) → i ≤ 6 → n ≤ 1024 ^ 7 → 1024 ^ suc i < n → suc i ≤ 6
still_small n i k h l = elim (Bool-cases (i == 6)) [
  | inr e ↦ ground arith
  | inl e ↦ omega (arith, ap (λ j. 1024 ^ suc j) (==→eq i 6 e))
]

unit_loop-IsUnit :
    (fuel n i : ℕ)
    → n ≤ 1024 ^ 7
    → i ≤ 6
    → 7 ≤ fuel + i
    → (i ≡ 0) ⊎ (1024 ^ i < n)
    → (j : ℕ) × (unit_loop fuel n i ≡ some j) × IsUnit n j
unfolding unit_loop
unit_loop-IsUnit zero n i h k l low = let no : ⊥ = omega arith in elim no [ ]
unit_loop-IsUnit (suc fuel) n i h k l low = elim (Bool-cases (ltb (1024 ^ suc i) n)) [
  | inr e ↦ rw e (i, refl, record { small = k; upper = ground arith; lower = low })
  | inl e ↦ rw e (
      unit_loop-IsUnit fuel n (suc i) h (still_small n i k h (ground arith)) (omega arith)
        (inr (ground arith)))
]

pub EachCleaned-IsItem :
    (before now : ℤ) (is ns : List HostData) → EachCleaned before now is ns → All (IsItem now) ns
EachCleaned-IsItem before now [] [] h = tt
EachCleaned-IsItem before now (i ∷ is) (n ∷ ns) (h, hs) =
    (h.item_ok, EachCleaned-IsItem before now is ns hs)
EachCleaned-IsItem before now [] (n ∷ ns) h = elim h [ ]
EachCleaned-IsItem before now (i ∷ is) [] h = elim h [ ]

sum_fits : (now : ℤ) (d : HostData) → IsItem now d → d.byte_sum < two_64
sum_fits now d v = omega (arith, v.summed)

module _ (to_double : ℕ → ℕ) (two_digits : (n i : ℕ) → Bytes) where
  -- `readable_bytes` ends for every `unsigned long`, if the conversion to `double` keeps it below or
  -- at 2 ^ 64, never reads past the units, and prints the quotient by the unit that fits.
  pub readable_bytes-IsUnit :
      (n : ℕ)
      → to_double n ≤ two_64
      → (i : ℕ) × (u : Bytes) × IsUnit (to_double n) i
        × (get_elem? units i ≡ some u)
        × (readable_bytes to_double two_digits n
            ≡ some (two_digits (to_double n) i ++ codes " " ++ u))
  unfolding readable_bytes
  readable_bytes-IsUnit n h =
      let (i, e, v) =
        unit_loop-IsUnit 10 (to_double n) 0 (omega arith) (omega arith) (omega arith) (inl refl) in
      let (u, k) = get_elem?-lt units i (omega (arith, v.small)) in
      (i, u, v, k, rw (e, readable_bytes, k))

  module _ (c : Config) (widened : (n : ℕ) → n < two_64 → to_double n ≤ two_64) where
    row-some :
        (d : HostData)
        → d.byte_sum < two_64
        → (line : Bytes) × (row to_double two_digits c d ≡ some line)
    unfolding row
    row-some d h = elim (Bool-cases c.human_readable) [
      | inr e ↦ (row_text to_double two_digits d (decimal d.byte_sum), rw e refl)
      | inl e ↦
          let (i, u, v, k, r) = readable_bytes-IsUnit d.byte_sum (widened d.byte_sum h) in
          (
            row_text to_double two_digits d (two_digits (to_double d.byte_sum) i ++ codes " " ++ u),
            rw (e, row, r) refl,
          )
    ]

    -- The loop prints the first `print_max_items` items.
    rows-first :
        (num : ℕ) (ds : List HostData) (rest : List Bytes)
        → All (λ d. d.byte_sum < two_64) ds
        → (lines : List Bytes) × (rows to_double two_digits c num ds rest ≡ some (lines ++ rest))
          × (map (row to_double two_digits c) (take (pos_part c.print_max_items - num) ds)
              ≡ map some lines)
    unfolding rows
    rows-first num [] rest a = ([], refl, rw (take_nil (pos_part c.print_max_items - num)) refl)
    rows-first num (d ∷ ds) rest (h, a) = elim (Bool-cases (ltb_ℤ (pos num) c.print_max_items)) [
      | inr e ↦ ([], rw e refl, rw (none_left num c.print_max_items e) refl)
      | inl e ↦
          let (line, r) = row-some d h in
          let (lines, p, q) = rows-first (suc num) ds rest a in
          (
            line ∷ lines,
            rw (e, r, p) refl,
            rw (one_left num c.print_max_items e, r) (ap (◌∷◌ (some line)) q),
          )
    ]

    -- If the conversion to `double` keeps an `unsigned long` below or at 2 ^ 64, `create_out` always
    -- produces its lines: the title, the lines of the first `print_max_items` items of the table, and
    -- the number of items. The table is what the clean-up left, the greatest sums first.
    pub create_out-first :
        (time_text : ℤ → Bytes) (now : ℤ) (items : List HostData)
        → All (IsItem now) items
        → (table : List HostData) × (lines : List Bytes) × (create_out to_double two_digits
              time_text c now items
            ≡ (
              table,
              some (
                  head_line to_double two_digits time_text c now ∷ codes "\n" ∷ titles ∷ lines
                  ++ codes "\n" ∷ (codes "Count: " ++ decimal (length table) ++ codes "\n") ∷ []),
            ))
          × (map (row to_double two_digits c) (take (pos_part c.print_max_items) table)
              ≡ map some lines)
          × Descending table
          × Perm table (cleanup_host_data items (now -ℤ c.timespan_seconds))
    unfolding create_out
    create_out-first time_text now items v =
        let before = now -ℤ c.timespan_seconds in
        let table = sort_list (exceeds compare) (cleanup_host_data items before) in
        let clean =
          EachCleaned-IsItem before now items (cleanup_host_data items before)
            (cleanup_host_data-Cleaned before now items v) in
        let fits =
          All-sort_list (exceeds compare) (λ d. d.byte_sum < two_64)
            (cleanup_host_data items before)
            (All-mono (IsItem now) (λ d. d.byte_sum < two_64) (cleanup_host_data items before)
              (sum_fits now) clean) in
        let (lines, p, q) =
          rows-first 0 table
            (codes "\n" ∷ (codes "Count: " ++ decimal (length table) ++ codes "\n") ∷ []) fits in
        let (d, perm) = sort_list-Descending (cleanup_host_data items before) in
        (table, lines, rw p refl, rw (sub_zero (pos_part c.print_max_items)) at q, d, perm)
