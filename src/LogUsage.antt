-- ===== src/LogUsage.antt =====
-- POST /external/api/log-usage of app/routes/external_api_routes.py: the search over every
-- FortiAnalyzer target of an ADOM. A client is what its two calls return; the clock is one answer
-- for each time that it is read, whether the deadline has passed.
pub mod Request
pub mod Answer
pub mod Resolve
pub mod Coverage
pub mod Rows
mod Tests
use t_log.Shared.{
  ℕ, zero, suc, ◌+◌, Bool, true, false, not, ◌&&◌, ◌||◌, Option, none, some, List, [], ◌∷◌, ◌++◌,
  String, ◌==◌, if◌then◌else◌, is_some, default, keep,
}
use t_log.Shared.Int.{ℤ}
use t_log.Shared.Text.{Unicode}
use t_log.Shared.Dict.{Dict, get, put, remove, has}
use t_log.Shared.Sets.{eq_int, eq_string, add, discard, update}
use t_log.Shared.Sort.{sorted, text_le}
use t_log.FazErrors.{Failure, message}

-- What a call of the client returns or raises.
pub data Reply {ℓ} (A : Type ℓ) : Type ℓ where
  got : A → Reply A
  raised : Failure → Reply A

-- One item of `get_devices()`; a missing key reads as the empty text.
pub record Device : Type 0 where
  pub name : String
  pub devid : String

-- What `_search_one_device` returns.
pub record Contribution : Type 0 where
  pub local_start : String
  pub local_end : String
  pub srcips : List String
  pub dstips : List String
  pub dstports : List ℤ
  pub log_count : ℕ
  pub truncated : Bool

-- A client of one target.
pub record Client : Type 0 where
  pub devices : Reply (List Device)
  pub search : String → Reply Contribution

-- The local variables of `_run_log_usage_search`.
pub record Search : Type 0 where
  pub remaining : List String
  pub devices_queried : List String
  pub device_errors : Dict String
  pub srcips : List String
  pub dstips : List String
  pub dstports : List ℤ
  pub log_count : ℕ
  pub truncated : Bool
  pub time_range : Option (String × String)
  pub clock_reads : ℕ
  pub deadline_hit : Bool

pub start : List String → Search
unfolding update
start devices = record {
  remaining = update [] devices;
  devices_queried = [];
  device_errors = [];
  srcips = [];
  dstips = [];
  dstports = [];
  log_count = 0;
  truncated = false;
  time_range = none;
  clock_reads = 0;
  deadline_hit = false;
}

module _ (u : Unicode) where
  -- `{d["name"].lower(): d["devid"] for d in devices if d.get("name") and d.get("devid")}`
  by_name_lower : Dict String → List Device → Dict String
  by_name_lower acc [] = acc
  by_name_lower acc (d ∷ ds) =
      by_name_lower
        (if not (d.name == "") && not (d.devid == "")
          then put (u.lower d.name) d.devid acc
          else acc)
        ds

  -- `if devid: resolved[name] = devid`
  resolve_one : String → Option String → Dict String → Dict String
  resolve_one name none resolved = resolved
  resolve_one name (some devid) resolved = if devid == "" then resolved else put name devid resolved

  -- The loop over the requested names; of its two results the caller uses the resolved ones.
  pick_resolved : Dict String → Dict String → List String → Dict String
  unfolding resolve_one
  pick_resolved known resolved [] = resolved
  pick_resolved known resolved (name ∷ names) =
      pick_resolved known (resolve_one name (get (u.lower name) known) resolved) names

  pub resolve_devices : List Device → List String → Dict String
  unfolding by_name_lower pick_resolved
  resolve_devices devices names = pick_resolved (by_name_lower [] devices) [] names

-- `for name in remaining: device_errors.setdefault(name, msg)`
set_defaults : String → List String → Dict String → Dict String
set_defaults msg [] errors = errors
set_defaults msg (name ∷ names) errors =
    set_defaults msg names (if has name errors then errors else put name msg errors)

-- `for name in remaining: device_errors[name] = msg`
pub set_all : String → List String → Dict String → Dict String
set_all msg [] errors = errors
set_all msg (name ∷ names) errors = set_all msg names (put name msg errors)

-- `not xs`
is_empty {ℓ} : {A : Type ℓ} → List A → Bool
is_empty [] = true
is_empty (x ∷ xs) = false

-- One device that is searched, after the clock was read.
take_device : String → Search → Search
take_device name s = record s {
  remaining = discard name s.remaining;
  device_errors = remove name s.device_errors;
  clock_reads = s.clock_reads + 1;
}

merge : String → Reply Contribution → Search → Search
merge name (raised e) s = record s { device_errors = put name (message e) s.device_errors }
merge name (got c) s = record s {
  devices_queried = s.devices_queried ++ name ∷ [];
  srcips = update s.srcips c.srcips;
  dstips = update s.dstips c.dstips;
  dstports = update s.dstports c.dstports;
  log_count = s.log_count + c.log_count;
  truncated = s.truncated || c.truncated;
  time_range = some (c.local_start, c.local_end);
}

module _ (late : ℕ → Bool) where
  -- The loop over the resolved devices of one target.
  search_devices : (String → Reply Contribution) → Dict String → Search → Search
  unfolding take_device merge
  search_devices search [] s = s
  search_devices search ((name, devid) ∷ rest) s =
      let next = search_devices search rest (merge name (search devid) (take_device name s)) in
      if late s.clock_reads
      then record s { clock_reads = s.clock_reads + 1; deadline_hit = true }
      else next

  module _ (u : Unicode) where
    -- One target: its devices, or an error for everything that remains.
    search_target : Client → Reply (List Device) → Search → Search
    unfolding search_devices resolve_devices set_defaults
    search_target client (raised e) s = record s {
      device_errors = set_defaults (message e) s.remaining s.device_errors;
    }
    search_target client (got devices) s =
        search_devices client.search (resolve_devices u devices (sorted text_le s.remaining)) s

    -- The loop over the targets, with both of its breaks.
    pub search_targets : List Client → Search → Search
    unfolding search_target is_empty
    search_targets [] s = s
    search_targets (client ∷ rest) s =
        let s' = search_target client client.devices s in
        let next = search_targets rest s' in
        if is_empty s.remaining then s else if s'.deadline_hit then s' else next
