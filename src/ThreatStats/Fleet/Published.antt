-- ===== src/ThreatStats/Fleet/Published.antt =====
-- The three places where a poll cycle leaves its figures.
use t_log.Shared.{
  Bool, true, false, not, ◌&&◌, ◌||◌, some, List, [], ◌∷◌, String, ◌==◌, ◌≡◌, ◌⊎◌, refl, any,
  Bool-cases, inl, inr,
}
use t_log.Shared.Text.{Unicode}
use t_log.Shared.Sort.{text_le}
use t_log.LogUsage.{Reply, got, raised}
use t_log.ThreatHistory.{get_latest_rollup}
use t_log.ThreatHistory.Latest.{AllBefore, get_latest_rollup-prune_old_rows}
use t_log.ThreatStats.{Stats, poll_one_target}
use t_log.ThreatStats.Fleet.{
  State, Target, rollup_of, combine, keep_result, collect, publish, poll_all_targets,
}

-- The cache has the time `t`, the snapshot is the cache, and the newest row has its figures.
abbrev pub Published : String → State → Type 0
Published t s =
    (s.cache.collected_at ≡ some t)
    × (s.stored ≡ some s.cache)
    × (get_latest_rollup s.rollups ≡ some (rollup_of t s.cache))

abbrev pub is_got : Reply Stats → Bool
is_got (raised e) = false
is_got (got r) = true

module _ (u : Unicode) where
  -- A target that is polled and answers every request.
  abbrev pub answered : Target → Bool
  answered t =
      not (t.label == "" || t.host == "" || not t.threat_poll_enabled)
      && is_got (poll_one_target u t.answers)

  abbrev Filled : List Stats → Type 0
  Filled results = (r : Stats) × (rest : List Stats) × (results ≡ r ∷ rest)

  keep_result-Filled :
      (a : Reply Stats) (rest : List Stats) (b : Bool)
      → (is_got a || b) ≡ true
      → (b ≡ true → Filled rest)
      → Filled (keep_result a rest)
  unfolding keep_result
  keep_result-Filled (raised e) rest b h later = later h
  keep_result-Filled (got r) rest b h later = (r, rest, refl)

  collect-Filled : (ts : List Target) → any answered ts ≡ true → Filled (collect u ts)
  unfolding collect
  collect-Filled [] h = absurd (cc h)
  collect-Filled (t ∷ ts) h =
      elim (Bool-cases (t.label == "" || t.host == "" || not t.threat_poll_enabled)) [
        | inl skip ↦ rw skip (collect-Filled ts (rw skip at h))
        | inr use_it ↦ rw use_it (
            keep_result-Filled (poll_one_target u t.answers) (collect u ts) (any answered ts)
              (rw use_it at h) (collect-Filled ts))
      ]

  publish-Published :
      (t cutoff : String) (results : List Stats) (s : State)
      → Filled results
      → AllBefore t s.rollups
      → text_le cutoff t ≡ true
      → Published t (publish u t cutoff results s)
  unfolding publish combine
  publish-Published t cutoff results s (r, rest, e) older young =
      rw e (refl, refl, get_latest_rollup-prune_old_rows cutoff _ s.rollups older young)

  pub poll_all_targets-Published :
      (t cutoff : String) (targets : List Target) (s : State)
      → any answered targets ≡ true
      → AllBefore t s.rollups
      → text_le cutoff t ≡ true
      → Published t (poll_all_targets u t cutoff targets s)
  unfolding poll_all_targets
  poll_all_targets-Published t cutoff targets s some_answer older young =
      publish-Published t cutoff (collect u targets) s (collect-Filled targets some_answer) older
        young

-- A cycle changes nothing, or leaves a cache with the time of the cycle that is the snapshot too.
publish-stored :
    (u : Unicode) (t cutoff : String) (results : List Stats) (s : State)
    → let s' = publish u t cutoff results s in
      (s' ≡ s) ⊎ ((s'.stored ≡ some s'.cache) × (s'.cache.collected_at ≡ some t))
unfolding publish combine
publish-stored u t cutoff [] s = inl refl
publish-stored u t cutoff (r ∷ results) s = inr (refl, refl)

pub poll_all_targets-stored :
    (u : Unicode) (t cutoff : String) (targets : List Target) (s : State)
    → let s' = poll_all_targets u t cutoff targets s in
      (s' ≡ s) ⊎ ((s'.stored ≡ some s'.cache) × (s'.cache.collected_at ≡ some t))
unfolding poll_all_targets
poll_all_targets-stored u t cutoff targets s = publish-stored u t cutoff (collect u targets) s
