-- ===== src/LogStats/Tests.antt =====
-- Poll cycles of the log statistics, and the theorems on them.
use t_log.Shared.{
  ℕ, true, false, not, Option, none, some, List, [], ◌∷◌, String, ◌≡◌, ◌⊎◌, refl, keep, any,
}
use t_log.Shared.Dict.{Dict, get, values, put, IsUnique}
use t_log.Shared.Sort.{sorted}
use t_log.FazErrors.{faz_error}
use t_log.LogHistory.{write_rollup, prune_old_rows, get_latest_rollup}
use t_log.LogUsage.{got, raised}
use t_log.LogStats.{
  Stat, is_fresh, classify_devices, Detail, build_silent_details, empty_cache, State, get_cached,
  Target, poll_all_targets,
}
use t_log.LogStats.Silent.{fresh}
use t_log.LogStats.Cycle.{answered, worker, last_with, reported, poll_all_targets_lem}

abbrev stat : String → Option ℕ → Stat
stat id ts = record { devid = id; devname = id; last_log_timestamp = ts; lograte = 2 }

abbrev fleet : List Stat
fleet = stat "a" (some 990) ∷ stat "b" (some 30) ∷ stat "c" none ∷ stat "d" (some 20) ∷ []

abbrev fresh_state : State
fresh_state = record { cache = empty_cache; stored = none; rollups = [] }

-- "a" is seen by two targets; the second one knows it as older.
abbrev targets : List Target
targets =
    (record { label = "one"; host = "h"; stats = got fleet })
    ∷ (record { label = "two"; host = "h"; stats = raised (faz_error "down") })
    ∷ (record { label = "three"; host = "h"; stats = got (stat "a" (some 10) ∷ []) })
    ∷ []

abbrev detail_of : String → Option ℕ → Detail
detail_of id ts = record { devid = id; devname = id; last_log_at = ts }

poll_run : Unit {0}
unfolding poll_all_targets get_cached classify_devices build_silent_details sorted is_fresh put
    values write_rollup prune_old_rows get_latest_rollup
poll_run = tt

poll_tests :
    (classify_devices fleet 1000 1
      ≡ (stat "a" (some 990) ∷ [], stat "b" (some 30) ∷ stat "c" none ∷ stat "d" (some 20) ∷ []))
    × (build_silent_details (classify_devices fleet 1000 1).1 2
        ≡ detail_of "c" none ∷ detail_of "d" (some 20) ∷ [])
    × ((poll_all_targets 1000 "2026-01-02" "2025-12-03" 1 targets fresh_state).cache.logging_devices
        ≡ [])
    × (get_latest_rollup
          (poll_all_targets 1000 "2026-01-02" "2025-12-03" 1 targets fresh_state).rollups
        ≡ some (record {
          devices_logging = 0;
          devices_silent = 4;
          total_lograte = 0;
          collected_at = "2026-01-02";
        }))
unfolding poll_run
poll_tests = (refl, refl, refl, refl)

poll_all_targets_lem_example :
    let polled = poll_all_targets 1000 "2026-01-02" "2025-12-03" 1 targets fresh_state in
    ((any answered targets ≡ false) × (polled ≡ fresh_state))
    ⊎ ((any answered targets ≡ true)
        × ((devices : Dict Stat) × IsUnique devices
            × ((k : String) → get k devices ≡ last_with k (reported targets))
            × (polled.cache.logging_devices ≡ keep (fresh 1000 1) (values devices))
            × (polled.cache.silent_devices ≡ keep (λ d. not (fresh 1000 1 d)) (values devices)))
        × (polled.cache.collected_at ≡ some "2026-01-02")
        × ((get_cached (worker polled)).1 ≡ polled.cache))
poll_all_targets_lem_example =
    poll_all_targets_lem 1000 "2026-01-02" "2025-12-03" 1 targets fresh_state
