-- ===== src/Collector/Pollers/Tests.antt =====
-- A collector that polls twice, and a worker that answers after each poll.
use t_log.Shared.{ℕ, none, some, [], ◌∷◌, String, ◌≡◌, refl}
use t_log.Shared.Dict.{put, values}
use t_log.Shared.Sort.{sorted}
use t_log.LogUsage.{got}
use t_log.LogStats as Logs
use t_log.LogHistory.{write_rollup, prune_old_rows}
use t_log.Collector.{Split, serve, cycle, here, polled}
use t_log.Collector.Pollers.{LogCycle, log_poller, poll_logs}
use t_log.Collector.Pollers.Served.{logs_first_answer-kept}

abbrev stat : String → ℕ → Logs.Stat
stat id t = record { devid = id; devname = id; last_log_timestamp = some t; lograte = 1 }

abbrev cycle_at : ℕ → String → LogCycle
cycle_at now time = record {
  now = now;
  collected_at = time;
  cutoff = "2025-12-03";
  threshold_minutes = 1;
  targets = (record { label = "one"; host = "h"; stats = got (stat "a" 1000 ∷ []) }) ∷ [];
}

abbrev start : Split Logs.State Logs.Cache
start = record {
  own = record { cache = Logs.empty_cache; stored = none; rollups = [] };
  workers = λ i. Logs.empty_cache;
}

abbrev first : Split Logs.State Logs.Cache
first = cycle log_poller (cycle_at 1010 "2026-01-02") start

-- At the second poll the device has been silent for long.
abbrev second : Split Logs.State Logs.Cache
second = cycle log_poller (cycle_at 9000 "2026-01-03") (serve log_poller 4 first).0

split_run : Unit {0}
unfolding serve cycle log_poller poll_logs Logs.poll_all_targets Logs.get_cached
    Logs.classify_devices Logs.is_fresh sorted put values write_rollup prune_old_rows
split_run = tt

split_tests :
    (first.own.cache.logging_devices ≡ stat "a" 1000 ∷ [])
    × (second.own.cache.logging_devices ≡ [])
    × ((serve log_poller 4 second).1.logging_devices ≡ stat "a" 1000 ∷ [])
    × ((serve log_poller 5 second).1.logging_devices ≡ [])
unfolding split_run
split_tests = (refl, refl, refl, refl)

logs_first_answer-kept_example :
    ((serve log_poller 4 first).1 ≡ first.own.cache)
    × ((serve log_poller 4 second).1 ≡ first.own.cache)
unfolding split_run
logs_first_answer-kept_example =
    logs_first_answer-kept 4 start first second "2026-01-02" (refl, refl, λ i. refl)
      (polled here (cycle_at 1010 "2026-01-02")) refl refl
      (polled here (cycle_at 9000 "2026-01-03"))
