-- ===== src/Summary.antt =====
-- app/routes/external_api_routes.py: the executive summary, made from the caches of the three pollers
-- and the two histories behind them. A share of blocked detections is the pair that it is computed
-- from, a log rate is a whole number of ticks, a share of a disk is a whole number of tenths.
pub mod Route
pub mod Restart
pub mod Figures
mod Tests
use t_log.Shared.{
  ℕ, suc, ◌+◌, Bool, true, false, ◌||◌, Option, none, some, List, [], ◌∷◌, String, ◌==◌,
  if◌then◌else◌, is_some, length, keep, map, nat_eq,
}
use t_log.Shared.Int.{ℤ, leb_ℤ}
use t_log.Shared.Sort.{text_le}
use t_log.Shared.Text.{Unicode}
use t_log.Tokens.{SettingsFile, TokensFile, Refused, gate}
use t_log.FazHealth as Health
use t_log.LogStats as Logs
use t_log.LogHistory as LogRows
use t_log.ThreatStats.{Top, BySeverity}
use t_log.ThreatStats.Fleet as Fleet
use t_log.ThreatHistory as ThreatRows

-- `Config`
pub record Config : Type 0 where
  pub silent_device_threshold_minutes : ℕ
  pub admin_access_business_hours : String
  pub admin_access_timezone : String

-- One entry of "infra".
pub record Infra : Type 0 where
  pub role : String
  pub label : Option String
  pub hostname : Option String
  pub version : Option String
  pub cpu : Option ℕ
  pub mem : Option ℕ
  pub disk_used_pct : Option ℤ
  pub ha_role : Option String
  pub status : String
  pub last_updated : Option String

pub record Threats : Type 0 where
  pub alerts_unacked_total : ℕ
  pub alerts_unacked_by_severity : BySeverity
  pub ips_detections_24h : ℕ
  pub ips_blocked_24h : ℕ
  pub top_signatures : Top
  pub top_source_countries : Top
  pub collected_at : Option String

-- "business_hours" is the pair of texts that it is put together from.
pub record AdminAccess : Type 0 where
  pub failed_admin_logins_24h : ℕ
  pub devices_with_failed_logins : ℕ
  pub top_failed_sources : Top
  pub admin_logins_outside_hours_24h : ℕ
  pub business_hours : String × String
  pub collected_at : Option String

pub record Vpn : Type 0 where
  pub ipsec_tunnels_total : ℕ
  pub ipsec_tunnels_down : ℕ
  pub ssl_vpn_users_now : ℕ
  pub collected_at : Option String

pub record Freshness : Type 0 where
  pub faz_health : Option String
  pub log_stats : Option String
  pub threats : Option String

pub record Report : Type 0 where
  pub schema_version : ℕ
  pub freshness : Freshness
  pub faz_targets_total : ℕ
  pub faz_targets_healthy : ℕ
  pub faz_disk_used_pct : Option ℤ
  pub devices_logging : ℕ
  pub devices_silent : ℕ
  pub devices_silent_details : List Logs.Detail
  pub silent_device_threshold_minutes : ℕ
  pub log_volume_events_per_sec : ℕ
  pub log_stats_collected_at : Option String
  pub infra : List Infra
  pub threats : Threats
  pub admin_access : AdminAccess
  pub vpn : Vpn

pub normalize_str : String → Option String
normalize_str value = if value == "n/a" then none else some value

-- `max(xs) if xs else None`, with the test of the order
abbrev pub later_of {ℓ} : {A : Type ℓ} → (A → A → Bool) → A → Option A → Option A
later_of le x none = some x
later_of le x (some y) = if le y x then some x else some y

-- The newest of the times that the cards have.
pub faz_health_freshness : List Health.Card → Option String
faz_health_freshness [] = none
faz_health_freshness (t ∷ targets) =
    let rest = faz_health_freshness targets in
    elim t.last_updated [
      | none ↦ rest
      | some time ↦ if time == "" then rest else later_of text_le time rest
    ]

-- A row of the history, as the figures that `source.get` reads; `{}` gives the defaults.
pub source_of : Option ThreatRows.Rollup → Fleet.Cache
source_of none = record {
  alerts_unacked_total = 0;
  alerts_unacked_by_severity = record { critical = 0; high = 0; medium = 0; low = 0 };
  ips_detections_24h = 0;
  ips_blocked_24h = 0;
  top_signatures = [];
  top_source_countries = [];
  failed_admin_logins_24h = 0;
  devices_with_failed_logins = 0;
  top_failed_sources = [];
  admin_logins_outside_hours_24h = 0;
  ipsec_tunnels_total = 0;
  ipsec_tunnels_down = 0;
  ssl_vpn_users_now = 0;
  collected_at = none;
}
source_of (some r) = record {
  alerts_unacked_total = r.alerts_unacked_total;
  alerts_unacked_by_severity = r.alerts_unacked_by_severity;
  ips_detections_24h = r.ips_detections_24h;
  ips_blocked_24h = r.ips_blocked_24h;
  top_signatures = r.top_signatures;
  top_source_countries = r.top_source_countries;
  failed_admin_logins_24h = r.failed_admin_logins_24h;
  devices_with_failed_logins = r.devices_with_failed_logins;
  top_failed_sources = r.top_failed_sources;
  admin_logins_outside_hours_24h = r.admin_logins_outside_hours_24h;
  ipsec_tunnels_total = r.ipsec_tunnels_total;
  ipsec_tunnels_down = r.ipsec_tunnels_down;
  ssl_vpn_users_now = r.ssl_vpn_users_now;
  collected_at = some r.collected_at;
}

-- `cache if cache.get("collected_at") is not None else (rollup or {})`
pub source : Fleet.Cache → Option ThreatRows.Rollup → Fleet.Cache
unfolding source_of
source cache rollup = if is_some cache.collected_at then cache else source_of rollup

pub build_threats : Fleet.Cache → Option ThreatRows.Rollup → Threats
unfolding source
build_threats cache rollup =
    let s = source cache rollup in
    record {
      alerts_unacked_total = s.alerts_unacked_total;
      alerts_unacked_by_severity = s.alerts_unacked_by_severity;
      ips_detections_24h = s.ips_detections_24h;
      ips_blocked_24h = s.ips_blocked_24h;
      top_signatures = s.top_signatures;
      top_source_countries = s.top_source_countries;
      collected_at = s.collected_at;
    }

pub build_admin_access : Config → Fleet.Cache → Option ThreatRows.Rollup → AdminAccess
unfolding source
build_admin_access config cache rollup =
    let s = source cache rollup in
    record {
      failed_admin_logins_24h = s.failed_admin_logins_24h;
      devices_with_failed_logins = s.devices_with_failed_logins;
      top_failed_sources = s.top_failed_sources;
      admin_logins_outside_hours_24h = s.admin_logins_outside_hours_24h;
      business_hours = (config.admin_access_business_hours, config.admin_access_timezone);
      collected_at = s.collected_at;
    }

pub build_vpn : Fleet.Cache → Option ThreatRows.Rollup → Vpn
unfolding source
build_vpn cache rollup =
    let s = source cache rollup in
    record {
      ipsec_tunnels_total = s.ipsec_tunnels_total;
      ipsec_tunnels_down = s.ipsec_tunnels_down;
      ssl_vpn_users_now = s.ssl_vpn_users_now;
      collected_at = s.collected_at;
    }

-- What the summary says of the logs.
pub record LogFigures : Type 0 where
  pub logging : ℕ
  pub silent : ℕ
  pub details : List Logs.Detail
  pub events_per_sec : ℕ
  pub collected_at : Option String

-- The figures of a row of the history, which has no details.
pub figures_of : Option LogRows.Rollup → LogFigures
figures_of none = record {
  logging = 0;
  silent = 0;
  details = [];
  events_per_sec = 0;
  collected_at = none;
}
figures_of (some r) = record {
  logging = r.devices_logging;
  silent = r.devices_silent;
  details = [];
  events_per_sec = r.total_lograte;
  collected_at = some r.collected_at;
}

pub log_figures : Logs.Cache → List LogRows.Rollup → LogFigures
unfolding figures_of
log_figures cache rollups =
    if is_some cache.collected_at
    then record {
      logging = length cache.logging_devices;
      silent = length cache.silent_devices;
      details = cache.silent_details;
      events_per_sec = Logs.total_lograte cache.logging_devices;
      collected_at = cache.collected_at;
    }
    else figures_of (LogRows.get_latest_rollup rollups)
