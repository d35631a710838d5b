-- ===== src/Summary/Route.antt =====
-- The answer of GET /external/api/executive/summary, and what it does to the caches on its way.
use t_log.Shared.{
  ℕ, ◌||◌, Option, none, some, List, [], ◌∷◌, String, ◌==◌, if◌then◌else◌, is_some, length, keep,
  map, nat_eq,
}
use t_log.Shared.Int.{ℤ, leb_ℤ}
use t_log.Shared.Text.{Unicode}
use t_log.Tokens.{SettingsFile, TokensFile, Refused, gate}
use t_log.FazHealth as Health
use t_log.LogStats as Logs
use t_log.LogHistory as LogRows
use t_log.ThreatStats.Fleet as Fleet
use t_log.ThreatHistory as ThreatRows
use t_log.Summary.{
  Config, Infra, Report, normalize_str, later_of, faz_health_freshness, build_threats,
  build_admin_access, build_vpn, log_figures,
}

-- The states of the three pollers in one process.
pub record World : Type 0 where
  pub health : Health.State
  pub logs : Logs.State
  pub threats : Fleet.State

pub data Response : Type 0 where
  refused : Refused → Response
  ok : Report → Response

-- The answer of the gate, or the one of the route.
unfoldable pub unless_refused : Option Refused → World → World × Report → World × Response
unless_refused (some error) w r = (w, refused error)
unless_refused none w (after, report) = (after, ok report)

-- `usage` reads the two numbers that `_DISK_USAGE_RE` finds, `percent` is the share
-- `round((total - free) / total * 100, 1)` of floats in tenths.
module _ (usage : String → Option (ℕ × ℕ)) (percent : ℕ → ℕ → ℤ) where
  used_share : Option (ℕ × ℕ) → Option ℤ
  used_share none = none
  used_share (some (free, total)) = if nat_eq total 0 then none else some (percent free total)

  unfoldable pub parse_disk_used_pct : String → Option ℤ
  unfolding used_share
  parse_disk_used_pct disk_used = if disk_used == "" then none else used_share (usage disk_used)

  unfoldable pub infra_of : Health.Card → Infra
  unfolding normalize_str parse_disk_used_pct
  infra_of t = record {
    role = "fortianalyzer";
    label = t.label;
    hostname = normalize_str t.hostname;
    version = normalize_str t.version;
    cpu = t.cpu;
    mem = t.mem;
    disk_used_pct = parse_disk_used_pct t.disk_used;
    ha_role = normalize_str t.ha_role;
    status = t.status;
    last_updated = t.last_updated;
  }

  unfoldable pub build_infra_list : List Health.Card → List Infra
  unfolding infra_of
  build_infra_list targets = map infra_of targets

  unfoldable pub max_disk : List Health.Card → Option ℤ
  unfolding parse_disk_used_pct
  max_disk [] = none
  max_disk (t ∷ targets) =
      let rest = max_disk targets in
      elim (parse_disk_used_pct t.disk_used) [ none ↦ rest | some pct ↦ later_of leb_ℤ pct rest ]

  -- The report on the cards and the two other caches.
  unfoldable pub summary_report :
      Config
      → List Health.Card
      → Logs.Cache
      → List LogRows.Rollup
      → Fleet.Cache
      → List ThreatRows.Rollup
      → Report
  unfolding build_infra_list max_disk log_figures build_threats build_admin_access build_vpn
      faz_health_freshness
  summary_report config cards log_cache log_rows threat_cache threat_rows =
      let logs = log_figures log_cache log_rows in
      let threat_rollup =
        if is_some threat_cache.collected_at
        then none
        else ThreatRows.get_latest_rollup threat_rows in
      let threats = build_threats threat_cache threat_rollup in
      record {
        schema_version = 2;
        freshness = record {
          faz_health = faz_health_freshness cards;
          log_stats = logs.collected_at;
          threats = threats.collected_at;
        };
        faz_targets_total = length cards;
        faz_targets_healthy =
            length (keep (λ (t : Health.Card). t.status == "green" || t.status == "yellow") cards);
        faz_disk_used_pct = max_disk cards;
        devices_logging = logs.logging;
        devices_silent = logs.silent;
        devices_silent_details = logs.details;
        silent_device_threshold_minutes = config.silent_device_threshold_minutes;
        log_volume_events_per_sec = logs.events_per_sec;
        log_stats_collected_at = logs.collected_at;
        infra = build_infra_list cards;
        threats = threats;
        admin_access = build_admin_access config threat_cache threat_rollup;
        vpn = build_vpn threat_cache threat_rollup;
      }

  module _ (hash : String → String) (u : Unicode) where
    -- The caches that are still empty are filled from the store on the way.
    unfoldable pub summary : Config → List Health.Target → World → World × Report
    unfolding summary_report
    summary config targets w =
        let (health, cards) = Health.get_all_cached targets w.health in
        let (logs, log_cache) = Logs.get_cached w.logs in
        let (threats, threat_cache) = Fleet.get_cached w.threats in
        (
          record { health = health; logs = logs; threats = threats },
          summary_report config cards log_cache logs.rollups threat_cache threats.rollups,
        )

    unfoldable pub executive_summary :
        SettingsFile → TokensFile → String → Config → List Health.Target → World → World × Response
    unfolding summary unless_refused
    executive_summary settings tokens auth config targets w =
        unless_refused (gate hash u settings tokens auth) w (summary config targets w)
