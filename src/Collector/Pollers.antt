-- ===== src/Collector/Pollers.antt =====
-- The pollers of app/log_stats_cache.py and app/threat_stats_cache.py meet the interface.
pub mod Served
mod Tests
use t_log.Shared.{
  ℕ, Bool, true, false, Option, none, some, List, String, ◌≡◌, ◌⊎◌, refl, is_some, if◌then◌else◌,
  ap, inl, inr,
}
use t_log.Shared.Text.{Unicode}
use t_log.LogStats as Logs
use t_log.LogStats.Published as LogPublished
use t_log.ThreatStats.Fleet as Fleet
use t_log.ThreatStats.Fleet.Published as ThreatPublished
use t_log.Collector.{Poller}

-- The readings of the clock, the threshold of `Config`, and the targets with their answers.
pub record LogCycle : Type 0 where
  pub now : ℕ
  pub collected_at : String
  pub cutoff : String
  pub threshold_minutes : ℕ
  pub targets : List Logs.Target

poll_logs : LogCycle → Logs.State → Logs.State
poll_logs i = Logs.poll_all_targets i.now i.collected_at i.cutoff i.threshold_minutes i.targets

logs_own : (s : Logs.State) → is_some s.cache.collected_at ≡ true → Logs.get_cached s ≡ (s, s.cache)
unfolding Logs.get_cached
logs_own s h = rw h refl

logs_seen : Logs.State → Option Logs.Cache → Logs.State × Logs.Cache
logs_seen s o = elim o [ none ↦ (s, s.cache) | some c ↦ (record s { cache = c }, c) ]

logs_unfilled :
    (s : Logs.State) (o : Option Logs.Cache)
    → is_some s.cache.collected_at ≡ false
    → s.stored ≡ o
    → Logs.get_cached s ≡ logs_seen s o
unfolding Logs.get_cached logs_seen
logs_unfilled s o h e = rw h (ap (logs_seen s) e)

logs_publish :
    (i : LogCycle) (s : Logs.State)
    → (poll_logs i s ≡ s)
      ⊎ (((poll_logs i s).stored ≡ some (poll_logs i s).cache)
          × (is_some (poll_logs i s).cache.collected_at ≡ true))
unfolding poll_logs
logs_publish i s =
    elim (LogPublished.poll_all_targets-stored i.now i.collected_at i.cutoff i.threshold_minutes
      i.targets s) [ inl same ↦ inl same | inr (stored, at) ↦ inr (stored, ap is_some at) ]

pub log_poller : Poller Logs.State Logs.Cache LogCycle
unfolding logs_seen
log_poller = record {
  cache = λ s. s.cache;
  with_cache = λ c s. record s { cache = c };
  stored = λ s. s.stored;
  is_filled = λ c. is_some c.collected_at;
  empty = Logs.empty_cache;
  get_cached = Logs.get_cached;
  poll = poll_logs;
  cache_with = λ c s. refl;
  stored_with = λ c s. refl;
  empty_unfilled = refl;
  get_own = logs_own;
  get_stored = λ s c. logs_unfilled s (some c);
  get_none = λ s. logs_unfilled s none;
  poll_publishes = logs_publish;
}

pub record ThreatCycle : Type 0 where
  pub unicode : Unicode
  pub collected_at : String
  pub cutoff : String
  pub targets : List Fleet.Target

poll_threats : ThreatCycle → Fleet.State → Fleet.State
poll_threats i = Fleet.poll_all_targets i.unicode i.collected_at i.cutoff i.targets

threats_own :
    (s : Fleet.State) → is_some s.cache.collected_at ≡ true → Fleet.get_cached s ≡ (s, s.cache)
unfolding Fleet.get_cached
threats_own s h = rw h refl

threats_seen : Fleet.State → Option Fleet.Cache → Fleet.State × Fleet.Cache
threats_seen s o = elim o [ none ↦ (s, s.cache) | some c ↦ (record s { cache = c }, c) ]

threats_unfilled :
    (s : Fleet.State) (o : Option Fleet.Cache)
    → is_some s.cache.collected_at ≡ false
    → s.stored ≡ o
    → Fleet.get_cached s ≡ threats_seen s o
unfolding Fleet.get_cached threats_seen
threats_unfilled s o h e = rw h (ap (threats_seen s) e)

threats_publish :
    (i : ThreatCycle) (s : Fleet.State)
    → (poll_threats i s ≡ s)
      ⊎ (((poll_threats i s).stored ≡ some (poll_threats i s).cache)
          × (is_some (poll_threats i s).cache.collected_at ≡ true))
unfolding poll_threats
threats_publish i s =
    elim (ThreatPublished.poll_all_targets-stored i.unicode i.collected_at i.cutoff i.targets s) [
      | inl same ↦ inl same
      | inr (stored, at) ↦ inr (stored, ap is_some at)
    ]

pub threat_poller : Poller Fleet.State Fleet.Cache ThreatCycle
unfolding threats_seen
threat_poller = record {
  cache = λ s. s.cache;
  with_cache = λ c s. record s { cache = c };
  stored = λ s. s.stored;
  is_filled = λ c. is_some c.collected_at;
  empty = Fleet.empty_cache;
  get_cached = Fleet.get_cached;
  poll = poll_threats;
  cache_with = λ c s. refl;
  stored_with = λ c s. refl;
  empty_unfilled = refl;
  get_own = threats_own;
  get_stored = λ s c. threats_unfilled s (some c);
  get_none = λ s. threats_unfilled s none;
  poll_publishes = threats_publish;
}
