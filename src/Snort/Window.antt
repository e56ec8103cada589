-- ===== src/Snort/Window.antt =====
-- Which hits a clean-up reaches.
use sntools.Base.{
  ◌≡◌, refl, ap, Bool, true, false, List, [], ◌∷◌, ◌++◌, map, if◌then◌else◌, ◌&&◌, inl, inr,
  Bool-cases, ltb_ℤ, ℤ, All,
}
use sntools.Snort.{HitCount, EventData, remove_loop, remove_hit_count_before}

unfoldable pub all_expired : ℤ → List HitCount → Bool
all_expired before [] = true
all_expired before (c ∷ cs) = ltb_ℤ c.ts before && all_expired before cs

-- The hits from the first one on that is not older than `before`.
unfoldable pub from_recent : ℤ → List HitCount → List HitCount
from_recent before [] = []
from_recent before (c ∷ cs) = if ltb_ℤ c.ts before then from_recent before cs else c ∷ cs

remove_loop-expired :
    (before : ℤ) (cs : List HitCount)
    → all_expired before cs ≡ true
    → remove_loop cs before ≡ ([], false)
unfolding remove_loop all_expired
remove_loop-expired before [] h = refl
remove_loop-expired before (c ∷ cs) h = elim (Bool-cases (ltb_ℤ c.ts before)) [
  | inl e ↦ rw e (remove_loop-expired before cs (rw e at h))
  | inr e ↦ cc (rw e at h)
]

remove_loop-recent :
    (before : ℤ) (cs : List HitCount)
    → all_expired before cs ≡ false
    → remove_loop cs before ≡ (from_recent before cs, true)
unfolding remove_loop all_expired from_recent
remove_loop-recent before [] h = cc
remove_loop-recent before (c ∷ cs) h = elim (Bool-cases (ltb_ℤ c.ts before)) [
  | inl e ↦ rw e (remove_loop-recent before cs (rw e at h))
  | inr e ↦ rw e refl
]

abbrev pub cleared : EventData → EventData
cleared item = record item { hit_count = [] }

abbrev pub trimmed : ℤ → EventData → EventData
trimmed before item = record item { hit_count = from_recent before item.hit_count }

-- `remove_hit_count_before` on a table in which all hits of the first items are outdated and the next
-- item has a recent one: the first items lose all hits, the next one those up to its first recent
-- hit, and all items behind it keep theirs, outdated or not.
pub remove_hit_count_before-prefix :
    (before : ℤ) (old : List EventData) (item : EventData) (behind : List EventData)
    → All (λ d. all_expired before d.hit_count ≡ true) old
    → all_expired before item.hit_count ≡ false
    → remove_hit_count_before (old ++ item ∷ behind) before
      ≡ map cleared old ++ trimmed before item ∷ behind
unfolding remove_hit_count_before
remove_hit_count_before-prefix before [] item behind a h =
    rw (remove_loop-recent before item.hit_count h) refl
remove_hit_count_before-prefix before (d ∷ old) item behind (e, a) h =
    rw (remove_loop-expired before d.hit_count e)
      (ap (◌∷◌ (cleared d)) (remove_hit_count_before-prefix before old item behind a h))
