-- ===== src/LogStats.antt =====
-- app/log_stats_cache.py: which devices still send logs, the details of the silent ones, and the
-- cache that a poll writes and a web worker reads, with the snapshot of app/collector_store.py and
-- the rows of app/log_stats_history.py behind it. A time is a whole number of seconds, `now - ts <= t`
-- is written `now <= ts + t`; a log rate is a whole number of ticks.
pub mod Silent
pub mod Cycle
pub mod Published
mod Tests
use t_log.Shared.{
  ℕ, zero, suc, ◌+◌, ◌*◌, Bool, true, false, not, ◌&&◌, ◌||◌, Option, none, some, List, [], ◌∷◌,
  ◌++◌, String, ◌==◌, if◌then◌else◌, default, is_some, leb, length, take,
}
use t_log.Shared.Dict.{Dict, put, values}
use t_log.Shared.Sort.{sorted}
use t_log.LogHistory.{Rollup, write_rollup, prune_old_rows}
use t_log.LogUsage.{Reply, got, raised}

-- One record of `get_log_stats()`.
pub record Stat : Type 0 where
  pub devid : String
  pub devname : String
  pub last_log_timestamp : Option ℕ
  pub lograte : ℕ

-- `ts and (now - ts) <= threshold_seconds`
unfoldable pub is_fresh : ℕ → ℕ → Option ℕ → Bool
is_fresh now threshold_minutes none = false
is_fresh now threshold_minutes (some zero) = false
is_fresh now threshold_minutes (some (suc t)) = leb now (suc t + threshold_minutes * 60)

-- One more device in front of the two lists; the code appends at their end, in the same order.
add_device : Bool → Stat → List Stat × List Stat → List Stat × List Stat
add_device true dev (logging, silent) = (dev ∷ logging, silent)
add_device false dev (logging, silent) = (logging, dev ∷ silent)

unfoldable pub classify_devices : List Stat → ℕ → ℕ → List Stat × List Stat
unfolding add_device is_fresh
classify_devices [] now threshold_minutes = ([], [])
classify_devices (dev ∷ stats) now threshold_minutes =
    let rest = classify_devices stats now threshold_minutes in
    add_device (is_fresh now threshold_minutes dev.last_log_timestamp) dev rest

-- The timestamp of a device that has logged; 0 is no timestamp.
pub stamp : Stat → ℕ
stamp dev = default dev.last_log_timestamp 0

-- The order of `sort_key`: (0, 0.0) for a device that never logged, (1, ts) for the others.
pub key_le : Stat → Stat → Bool
unfolding stamp
key_le a b = leb (stamp a) (stamp b)

pub record Detail : Type 0 where
  pub devid : String
  pub devname : String
  pub last_log_at : Option ℕ

pub detail : Stat → Detail
unfolding stamp
detail dev = record {
  devid = dev.devid;
  devname = dev.devname;
  last_log_at = if leb 1 (stamp dev) then some (stamp dev) else none;
}

details : List Stat → List Detail
unfolding detail
details [] = []
details (dev ∷ devs) = detail dev ∷ details devs

abbrev pub silent_details_max : ℕ
silent_details_max = 50

pub build_silent_details : List Stat → ℕ → List Detail
unfolding details key_le
build_silent_details silent limit = details (take limit (sorted key_le silent))

-- `_cache`
pub record Cache : Type 0 where
  pub logging_devices : List Stat
  pub silent_devices : List Stat
  pub silent_details : List Detail
  pub collected_at : Option String

abbrev pub empty_cache : Cache
empty_cache = record {
  logging_devices = [];
  silent_devices = [];
  silent_details = [];
  collected_at = none;
}

-- The cache of one process, the snapshot in the collector's store, and the history.
pub record State : Type 0 where
  pub cache : Cache
  pub stored : Option Cache
  pub rollups : List Rollup

-- `get_cached`, which may fill the cache from the store.
unfoldable pub get_cached : State → State × Cache
get_cached s = if is_some s.cache.collected_at then (s, s.cache) else elim s.stored [
  | none ↦ (s, s.cache)
  | some snapshot ↦ (record s { cache = snapshot }, snapshot)
]

-- A configured target, and what `get_log_stats()` of its client returns.
pub record Target : Type 0 where
  pub label : String
  pub host : String
  pub stats : Reply (List Stat)

add_stats : List Stat → Dict Stat → Dict Stat
add_stats [] devices = devices
add_stats (dev ∷ stats) devices = add_stats stats (put dev.devid dev devices)

-- The answer of one target: a failure leaves everything as it was.
take_stats : Reply (List Stat) → Dict Stat × Bool → Dict Stat × Bool
unfolding add_stats
take_stats (raised e) acc = acc
take_stats (got stats) (devices, polled_ok) = (add_stats stats devices, true)

-- One target of the loop; one without a label or a host is skipped.
visit : Target → Dict Stat × Bool → Dict Stat × Bool
unfolding take_stats
visit t acc = if t.label == "" || t.host == "" then acc else take_stats t.stats acc

-- The loop over the targets: the last device seen for an identifier, and whether one answered.
pub collect : List Target → Dict Stat × Bool → Dict Stat × Bool
unfolding visit
collect [] acc = acc
collect (t ∷ ts) acc = collect ts (visit t acc)

unfoldable pub total_lograte : List Stat → ℕ
total_lograte [] = 0
total_lograte (dev ∷ devs) = dev.lograte + total_lograte devs

-- The part of the poll after the loop, once a target answered.
publish : ℕ → String → String → ℕ → Dict Stat → State → State
unfolding total_lograte
publish now collected_at cutoff threshold_minutes devices s =
    let (logging, silent) = classify_devices (values devices) now threshold_minutes in
    let snapshot : Cache = record {
      logging_devices = logging;
      silent_devices = silent;
      silent_details = build_silent_details silent silent_details_max;
      collected_at = some collected_at;
    } in
    let rollup : Rollup = record {
      devices_logging = length logging;
      devices_silent = length silent;
      total_lograte = total_lograte logging;
      collected_at = collected_at;
    } in
    record {
      cache = snapshot;
      stored = some snapshot;
      rollups = prune_old_rows cutoff (write_rollup rollup s.rollups);
    }

-- `now`, `collected_at` and `cutoff` are the readings of the clock.
unfoldable pub poll_all_targets : ℕ → String → String → ℕ → List Target → State → State
unfolding collect publish
poll_all_targets now collected_at cutoff threshold_minutes targets s =
    let (devices, polled_ok) = collect targets ([], false) in
    if polled_ok then publish now collected_at cutoff threshold_minutes devices s else s
