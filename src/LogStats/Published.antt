-- ===== src/LogStats/Published.antt =====
-- The three places where a poll cycle leaves its figures.
use t_log.Shared.{
  true, false, some, List, [], String, ◌≡◌, refl, ℕ, any, length, ◌⊎◌, Bool-cases, inl, inr,
}
use t_log.Shared.Sort.{text_le}
use t_log.LogHistory.{get_latest_rollup}
use t_log.ThreatHistory.Latest.{LogsBefore, log_rollup-prune_old_rows}
use t_log.LogStats.{State, Target, total_lograte, collect, publish, poll_all_targets}
use t_log.LogStats.Cycle.{answered, collect-ok}

-- The cache has the time `t`, the snapshot is the cache, and the newest row has its figures.
abbrev pub Published : String → State → Type 0
Published t s =
    (s.cache.collected_at ≡ some t)
    × (s.stored ≡ some s.cache)
    × (get_latest_rollup s.rollups
        ≡ some (record {
          devices_logging = length s.cache.logging_devices;
          devices_silent = length s.cache.silent_devices;
          total_lograte = total_lograte s.cache.logging_devices;
          collected_at = t;
        }))

pub poll_all_targets-Published :
    (now : ℕ) (t cutoff : String) (threshold_minutes : ℕ) (targets : List Target) (s : State)
    → any answered targets ≡ true
    → LogsBefore t s.rollups
    → text_le cutoff t ≡ true
    → Published t (poll_all_targets now t cutoff threshold_minutes targets s)
unfolding poll_all_targets publish
poll_all_targets-Published now t cutoff threshold_minutes targets s some_answer older young =
    rw (collect-ok targets ([], false), some_answer)
      (refl, refl, log_rollup-prune_old_rows cutoff _ s.rollups older young)

-- A cycle changes nothing, or leaves a cache with the time of the cycle that is the snapshot too.
pub poll_all_targets-stored :
    (now : ℕ) (t cutoff : String) (threshold_minutes : ℕ) (targets : List Target) (s : State)
    → let s' = poll_all_targets now t cutoff threshold_minutes targets s in
      (s' ≡ s) ⊎ ((s'.stored ≡ some s'.cache) × (s'.cache.collected_at ≡ some t))
unfolding poll_all_targets publish
poll_all_targets-stored now t cutoff threshold_minutes targets s =
    elim (Bool-cases (collect targets ([], false)).1) [
      | inl answered ↦ inr (rw answered (refl, refl))
      | inr silent ↦ inl (rw silent refl)
    ]
