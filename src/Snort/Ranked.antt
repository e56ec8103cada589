-- ===== src/Snort/Ranked.antt =====
-- The order of the table: `compare` of src/snort-scan-util.c against the weight of an item.
use sntools.Base.{ℕ, ◌+◌, ◌*◌, ◌<◌, ◌≤◌, ◌≡◌, List, [], ◌∷◌, All, pos, pos_part}
use sntools.Snort.{EventData}
use sntools.Snort.Heard.{total}

-- A priority below 1000, and fewer than four billion hits.
pub record IsUsual (item : EventData) : Type 0 where
  pub priority : ℕ
  pub known : item.latest_prio ≡ pos priority
  pub small : priority < 1000
  pub few : total item.hit_count < 4000000000

-- The weight of an item: a step of its priority is worth ten thousand hits.
abbrev pub weight : EventData → ℕ
weight item = pos_part item.latest_prio * 10000 + total item.hit_count

-- By rising weights.
abbrev pub Ascending : List EventData → Type 0
Ascending [] = Unit
Ascending (x ∷ xs) = All (λ y. weight x ≤ weight y) xs × Ascending xs
