-- ===== src/FazClient.antt =====
-- app/faz_client.py: get_devices and get_log_stats, which read the answers of two requests. A record
-- has the keys that are read; a log rate is a whole number of ticks.
pub mod Requests
pub mod Stats
mod Tests
use t_log.Shared.{
  ℕ, zero, suc, ◌+◌, Bool, true, false, not, Option, none, some, List, [], ◌∷◌, String, ◌==◌,
  if◌then◌else◌, default, leb, map, max,
}
use t_log.LogUsage.{Reply, got, raised}
use t_log.LogStats.{Stat}

-- One device of /dvmdb/adom/<adom>/device.
pub record Managed : Type 0 where
  pub sn : Option String
  pub name : Option String
  pub platform_str : Option String

-- One item of `get_devices()`.
pub record Listed : Type 0 where
  pub devid : String
  pub name : String
  pub platform : String

listed : Managed → Listed
listed d = record {
  devid = default d.sn "";
  name = default d.name "";
  platform = default d.platform_str "";
}

-- `[... for d in data if d.get("sn")]`
pub listed_all : List Managed → List Listed
unfolding listed
listed_all [] = []
listed_all (d ∷ devices) =
    let rest = listed_all devices in if default d.sn "" == "" then rest else listed d ∷ rest

-- The argument is the unwrapped answer's "data".
pub get_devices : Reply (Option (List Managed)) → Reply (List Listed)
unfolding listed_all
get_devices (raised e) = raised e
get_devices (got devices) = got (listed_all (default devices []))

-- One vdom of a device of /logview/adom/<adom>/logstats, and the device.
pub record Vdom : Type 0 where
  pub last_log_timestamp : Option ℕ
  pub lograte : Option ℕ

pub record Logging : Type 0 where
  pub devid : Option String
  pub devname : Option String
  pub vdoms : Option (List Vdom)

-- The greatest of the timestamps that are there and not 0, `max(timestamps) if timestamps else None`.
later : ℕ → Option ℕ → Option ℕ
later t none = some t
later t (some s) = some (max t s)

newest : Option ℕ → Option ℕ → Option ℕ
unfolding later
newest none rest = rest
newest (some zero) rest = rest
newest (some (suc t)) rest = later (suc t) rest

pub last_log : List Vdom → Option ℕ
unfolding newest
last_log [] = none
last_log (v ∷ vdoms) = newest v.last_log_timestamp (last_log vdoms)

total_rate : List Vdom → ℕ
total_rate [] = 0
total_rate (v ∷ vdoms) = default v.lograte 0 + total_rate vdoms

pub device_stat : Logging → Stat
unfolding last_log total_rate
device_stat dev = record {
  devid = default dev.devid "";
  devname = default dev.devname "";
  last_log_timestamp = last_log (default dev.vdoms []);
  lograte = total_rate (default dev.vdoms []);
}

-- The argument is `(result.get("data") or {}).get("devs")`.
pub get_log_stats : Reply (Option (List Logging)) → Reply (List Stat)
unfolding device_stat
get_log_stats (raised e) = raised e
get_log_stats (got devs) = got (map device_stat (default devs []))
