-- ===== src/ThreatStats/Fleet.antt =====
-- The figures over the whole fleet: `poll_all_targets` of app/threat_stats_cache.py with the
-- history of app/threat_stats_history.py.
pub mod Tunnels
pub mod Published
use t_log.Shared.{
  ℕ, ◌+◌, ◌*◌, Bool, true, false, not, ◌&&◌, ◌||◌, Option, none, some, List, [], ◌∷◌, String, ◌==◌,
  if◌then◌else◌, keep, length, is_some, map,
}
use t_log.Shared.Text.{Unicode}
use t_log.Shared.Sets.{Eq, eq_string, member, update}
use t_log.LogUsage.{Reply, got, raised}
use t_log.ThreatHistory.{Rollup, write_rollup, prune_old_rows}
use t_log.ThreatStats.{
  Key, eq_key, Top, BySeverity, Answers, Stats, sum, poll_one_target, merge_top_lists,
}

-- `_cache`; the share of blocked detections is the pair that it is computed from.
pub record Cache : Type 0 where
  pub alerts_unacked_total : ℕ
  pub alerts_unacked_by_severity : BySeverity
  pub ips_detections_24h : ℕ
  pub ips_blocked_24h : ℕ
  pub top_signatures : Top
  pub top_source_countries : Top
  pub failed_admin_logins_24h : ℕ
  pub devices_with_failed_logins : ℕ
  pub top_failed_sources : Top
  pub admin_logins_outside_hours_24h : ℕ
  pub ipsec_tunnels_total : ℕ
  pub ipsec_tunnels_down : ℕ
  pub ssl_vpn_users_now : ℕ
  pub collected_at : Option String

-- `_EMPTY_CACHE`
abbrev pub empty_cache : Cache
empty_cache = record {
  alerts_unacked_total = 0;
  alerts_unacked_by_severity = record { critical = 0; high = 0; medium = 0; low = 0 };
  ips_detections_24h = 0;
  ips_blocked_24h = 0;
  top_signatures = [];
  top_source_countries = [];
  failed_admin_logins_24h = 0;
  devices_with_failed_logins = 0;
  top_failed_sources = [];
  admin_logins_outside_hours_24h = 0;
  ipsec_tunnels_total = 0;
  ipsec_tunnels_down = 0;
  ssl_vpn_users_now = 0;
  collected_at = none;
}

-- The cache of one process, the snapshot in the collector's store, and the history.
pub record State : Type 0 where
  pub cache : Cache
  pub stored : Option Cache
  pub rollups : List Rollup

-- `get_cached`, which may fill the cache from the store.
unfoldable pub get_cached : State → State × Cache
get_cached s = if is_some s.cache.collected_at then (s, s.cache) else elim s.stored [
  | none ↦ (s, s.cache)
  | some snapshot ↦ (record s { cache = snapshot }, snapshot)
]

-- A configured target with what its client answers.
pub record Target : Type 0 where
  pub label : String
  pub host : String
  pub threat_poll_enabled : Bool
  pub answers : Answers

-- `set().union(*(f(r) for r in results))`
pub union_of {ℓ} : {A : Type ℓ} → ⦃e : Eq A⦄ → (Stats → List A) → List Stats → List A
union_of f [] = []
union_of f (r ∷ results) = update (union_of f results) (f r)

-- `all_tunnel_names - all_up_tunnel_names`
pub down_names : List Stats → List Key
unfolding union_of
down_names results =
    let up = union_of (λ (r : Stats). r.ipsec_tunnel_up_names) results in
    keep (λ k. not (member k up)) (union_of (λ (r : Stats). r.ipsec_tunnel_names) results)

-- The figures of one cycle, from the targets that answered.
unfoldable pub combine : String → List Stats → Cache
unfolding down_names union_of
combine collected_at results = record {
  alerts_unacked_total = sum (λ (r : Stats). r.alerts_unacked_total) results;
  alerts_unacked_by_severity = record {
    critical = sum (λ (r : Stats). r.alerts_unacked_by_severity.critical) results;
    high = sum (λ (r : Stats). r.alerts_unacked_by_severity.high) results;
    medium = sum (λ (r : Stats). r.alerts_unacked_by_severity.medium) results;
    low = sum (λ (r : Stats). r.alerts_unacked_by_severity.low) results;
  };
  ips_detections_24h = sum (λ (r : Stats). r.ips_detections_24h) results;
  ips_blocked_24h = sum (λ (r : Stats). r.ips_blocked_24h) results;
  top_signatures = merge_top_lists (map (λ (r : Stats). r.top_signatures) results) 5;
  top_source_countries = merge_top_lists (map (λ (r : Stats). r.top_source_countries) results) 5;
  failed_admin_logins_24h = sum (λ (r : Stats). r.failed_admin_logins_24h) results;
  devices_with_failed_logins =
      length (union_of (λ (r : Stats). r.devices_with_failed_login_names) results);
  top_failed_sources = merge_top_lists (map (λ (r : Stats). r.top_failed_sources) results) 5;
  admin_logins_outside_hours_24h = sum (λ (r : Stats). r.admin_logins_outside_hours_24h) results;
  ipsec_tunnels_total = length (union_of (λ (r : Stats). r.ipsec_tunnel_names) results);
  ipsec_tunnels_down = length (down_names results);
  ssl_vpn_users_now = length (union_of (λ (r : Stats). r.ssl_vpn_users_now_names) results);
  collected_at = some collected_at;
}

-- One result more, where the target answered every request.
keep_result : Reply Stats → List Stats → List Stats
keep_result (raised e) results = results
keep_result (got r) results = r ∷ results

-- The arguments of `write_rollup`.
unfoldable pub rollup_of : String → Cache → Rollup
rollup_of collected_at c = record {
  alerts_unacked_total = c.alerts_unacked_total;
  alerts_unacked_by_severity = c.alerts_unacked_by_severity;
  ips_detections_24h = c.ips_detections_24h;
  ips_blocked_24h = c.ips_blocked_24h;
  top_signatures = c.top_signatures;
  top_source_countries = c.top_source_countries;
  failed_admin_logins_24h = c.failed_admin_logins_24h;
  devices_with_failed_logins = c.devices_with_failed_logins;
  top_failed_sources = c.top_failed_sources;
  admin_logins_outside_hours_24h = c.admin_logins_outside_hours_24h;
  ipsec_tunnels_total = c.ipsec_tunnels_total;
  ipsec_tunnels_down = c.ipsec_tunnels_down;
  ssl_vpn_users_now = c.ssl_vpn_users_now;
  collected_at = collected_at;
}

module _ (u : Unicode) where
  -- The loop over the targets.
  unfoldable pub collect : List Target → List Stats
  unfolding keep_result
  collect [] = []
  collect (t ∷ ts) =
      let rest = collect ts in
      if t.label == "" || t.host == "" || not t.threat_poll_enabled
      then rest
      else keep_result (poll_one_target u t.answers) rest

  publish : String → String → List Stats → State → State
  unfolding combine rollup_of
  publish collected_at cutoff [] s = s
  publish collected_at cutoff (r ∷ results) s =
      let snapshot = combine collected_at (r ∷ results) in
      record {
        cache = snapshot;
        stored = some snapshot;
        rollups = prune_old_rows cutoff (write_rollup (rollup_of collected_at snapshot) s.rollups);
      }

  -- `collected_at` and `cutoff` are the readings of the clock.
  unfoldable pub poll_all_targets : String → String → List Target → State → State
  unfolding collect publish
  poll_all_targets collected_at cutoff targets s = publish collected_at cutoff (collect targets) s
