-- ===== src/FazHealth.antt =====
-- app/faz_health_cache.py: the health card of each FortiAnalyzer, the cache that a poll fills and the
-- snapshot of it that other processes read. The SNMP query is a parameter that answers the CPU and
-- memory load and its own status; loads are whole ticks, and `round` is Python's `round(x, 1)`.
pub mod Cards
mod Query
mod Tests
use t_log.Shared.{
  ℕ, Bool, true, false, not, ◌&&◌, ◌||◌, Option, none, some, List, [], ◌∷◌, String, ◌==◌,
  if◌then◌else◌, default, is_some, leb,
}
use t_log.Shared.Dict.{Dict, get, put, put_all}
use t_log.FazErrors.{Failure, message}
use t_log.LogUsage.{Reply, got, raised}

-- `Config.CPU_CRIT` and the three other limits.
pub record Limits : Type 0 where
  pub cpu_crit : ℕ
  pub mem_crit : ℕ
  pub cpu_warn : ℕ
  pub mem_warn : ℕ

pub classify_status : Limits → Option ℕ → Option ℕ → String
classify_status limits none none = "green"
classify_status limits cpu mem =
    let c = default cpu 0 in
    let m = default mem 0 in
    if leb limits.cpu_crit c || leb limits.mem_crit m
    then "red"
    else if leb limits.cpu_warn c || leb limits.mem_warn m
    then "yellow"
    else "green"

-- One value of `_cache`.
pub record Card : Type 0 where
  pub label : Option String
  pub host : String
  pub adom : String
  pub status : String
  pub hostname : String
  pub version : String
  pub serial : String
  pub ha_mode : String
  pub ha_role : String
  pub disk_used : String
  pub cpu : Option ℕ
  pub mem : Option ℕ
  pub snmp_status : String
  pub error : Option String
  pub last_updated : Option String

-- A card with nothing read from the appliance.
pub blank_card : Option String → String → String → String → Option String → Option String → Card
blank_card label host adom status error last_updated = record {
  label = label;
  host = host;
  adom = adom;
  status = status;
  hostname = "n/a";
  version = "n/a";
  serial = "n/a";
  ha_mode = "n/a";
  ha_role = "n/a";
  disk_used = "n/a";
  cpu = none;
  mem = none;
  snmp_status = "disabled";
  error = error;
  last_updated = last_updated;
}

-- `_poll_snmp`
pub record Snmp : Type 0 where
  pub cpu : Option ℕ
  pub mem : Option ℕ
  pub snmp_status : String

-- A configured target, with what `preflight()` and `get_sys_status()`, and the SNMP query answer.
pub record Target : Type 0 where
  pub label : Option String
  pub host : Option String
  pub adom : Option String
  pub sys_status : Reply (Dict String)
  pub snmp : Snmp

-- `d.get(a, d.get(b, d.get(c, "n/a")))`
read : Dict String → List String → String
read d [] = "n/a"
read d (k ∷ ks) = default (get k d) (read d ks)

module _ (limits : Limits) (round : ℕ → ℕ) where
  rounded : Option ℕ → Option ℕ
  rounded none = none
  rounded (some x) = some (round x)

  -- `now` is the time of the entry, `later` the one after the answers.
  fill : Card → String → Snmp → Reply (Dict String) → Card
  unfolding read rounded
  fill card later snmp (raised e) = record card { error = some (message e) }
  fill card later snmp (got d) = record card {
    hostname = read d ("Hostname" ∷ "hostname" ∷ []);
    version = read d ("Version" ∷ "version" ∷ []);
    serial = read d ("Serial Number" ∷ "serial" ∷ []);
    ha_mode = read d ("HA Mode" ∷ "ha-mode" ∷ "ha_mode" ∷ []);
    ha_role = read d ("HA Role" ∷ "ha-role" ∷ "ha_role" ∷ []);
    disk_used = read d ("Disk Usage" ∷ "disk-usage" ∷ "disk_usage" ∷ []);
    cpu = rounded snmp.cpu;
    mem = rounded snmp.mem;
    snmp_status = snmp.snmp_status;
    status = classify_status limits snmp.cpu snmp.mem;
    last_updated = some later;
  }

  pub poll_target : String → String → String → String → Target → Card
  unfolding fill blank_card
  poll_target now later label host t =
      fill (blank_card (some label) host (default t.adom "root") "offline" none (some now)) later
        t.snmp t.sys_status

  -- The card of one target of the loop; a missing "host" raises a KeyError, which makes it offline.
  pub card_of : String → String → String → Target → Card
  unfolding poll_target blank_card
  card_of now later label t = elim t.host [
    | none ↦
        blank_card (some label) "" (default t.adom "root") "offline"
          (some "Malformed target entry: 'host'") (some now)
    | some host ↦ poll_target now later label host t
  ]

  -- One target of the loop; one without a label is skipped.
  poll_one : String → String → Option String → Target → Dict Card → Dict Card
  unfolding card_of
  poll_one now later none t cache = cache
  poll_one now later (some label) t cache =
      if label == "" then cache else put label (card_of now later label t) cache

  pub poll_cards : String → String → List Target → Dict Card → Dict Card
  unfolding poll_one
  poll_cards now later [] cache = cache
  poll_cards now later (t ∷ ts) cache = poll_cards now later ts (poll_one now later t.label t cache)

-- The cache of one process and the snapshot in the collector's store.
pub record State : Type 0 where
  pub cache : Dict Card
  pub stored : Option (Dict Card)

pub poll_all_targets : Limits → (ℕ → ℕ) → String → String → List Target → State → State
unfolding poll_cards
poll_all_targets limits round now later targets s =
    let cache = poll_cards limits round now later targets s.cache in
    record { cache = cache; stored = some cache }

-- `if stored: _cache.update(stored)`, where the cache is empty
read_through : Dict Card → Option (Dict Card) → Dict Card
read_through [] none = []
read_through [] (some stored) = put_all [] stored
read_through (c ∷ cache) stored = c ∷ cache

-- The cached card of a label, or the given one.
cached_or : Card → Option String → Dict Card → Card
cached_or gray none cache = gray
cached_or gray (some label) cache = default (get label cache) gray

-- The card of one configured target, gray where there is none yet.
shown : Dict Card → Target → Card
unfolding blank_card cached_or
shown cache t =
    cached_or (blank_card t.label (default t.host "") (default t.adom "root") "gray" none none)
      t.label cache

all_shown : Dict Card → List Target → List Card
unfolding shown
all_shown cache [] = []
all_shown cache (t ∷ ts) = shown cache t ∷ all_shown cache ts

pub get_all_cached : List Target → State → State × List Card
unfolding read_through all_shown
get_all_cached targets s =
    let cache = read_through s.cache s.stored in
    (record s { cache = cache }, all_shown cache targets)
