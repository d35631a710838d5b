-- ===== src/Summary/Tests.antt =====
-- The executive summary after a poll cycle, and the theorems on it.
use t_log.Shared.{
  ℕ, ◌-◌, ◌*◌, ◌/◌, true, Option, none, some, List, [], ◌∷◌, String, ◌==◌, ◌≡◌, refl, contents,
  if◌then◌else◌,
}
use t_log.Shared.Int.{ℤ, pos}
use t_log.Shared.Text.{ascii_with, Unicode}
use t_log.Shared.Sort.{sorted}
use t_log.FazErrors.{faz_error}
use t_log.LogUsage.{got, raised}
use t_log.Tokens.{SettingsFile, TokensFile}
use t_log.Shared.Dict.{get}
use t_log.FazHealth as Health
use t_log.LogStats as Logs
use t_log.LogStats.Cycle as LogCycle
use t_log.LogHistory as LogRows
use t_log.ThreatStats.{Answers, poll_one_target}
use t_log.ThreatStats.Fleet as Fleet
use t_log.Summary.{Config, log_figures, faz_health_freshness}
use t_log.Summary.Route.{World, Response, infra_of, max_disk, summary_report}
use t_log.Summary.Restart.{
  worker, restarted, without_details, answer, polled, executive_summary-restarted,
}
use t_log.Summary.Figures.{Consistent, executive_summary-Consistent}

abbrev plain : Unicode
plain = ascii_with (λ s. if s == "Bearer key" then "bearer key" else s) (λ s. s)

abbrev usage : String → Option (ℕ × ℕ)
usage s = if s == "Free 40GB, Total 100GB" then some (40, 100) else none

abbrev percent : ℕ → ℕ → ℤ
percent free total = pos (1000 - free * 1000 / total)

abbrev same : String → String
same s = s

abbrev settings : SettingsFile
settings = contents (("external_api_enabled", true) ∷ [])

abbrev tokens : TokensFile
tokens =
    contents
      (record { id = some "1"; name = some "exec"; token_hash = some "key"; enabled = none } ∷ [])

abbrev config : Config
config = record {
  silent_device_threshold_minutes = 60;
  admin_access_business_hours = "08:00-18:00";
  admin_access_timezone = "UTC";
}

abbrev snmp : Health.Snmp
snmp = record { cpu = none; mem = none; snmp_status = "disabled" }

abbrev appliances : List Health.Target
appliances =
    (record { label = some "one"; host = some "h"; adom = none; sys_status = got []; snmp = snmp })
    ∷ (record { label = some "two"; host = none; adom = none; sys_status = got []; snmp = snmp })
    ∷ []

abbrev card : Health.Card
card = record {
  label = some "one";
  host = "h";
  adom = "root";
  status = "green";
  hostname = "n/a";
  version = "7.4";
  serial = "n/a";
  ha_mode = "n/a";
  ha_role = "n/a";
  disk_used = "Free 40GB, Total 100GB";
  cpu = none;
  mem = none;
  snmp_status = "disabled";
  error = none;
  last_updated = some "2026-01-01";
}

abbrev log_targets : List Logs.Target
log_targets =
    record {
      label = "one";
      host = "h";
      stats = got (
          (record { devid = "a"; devname = "a"; last_log_timestamp = some 990; lograte = 7 })
          ∷ (record { devid = "b"; devname = "b"; last_log_timestamp = none; lograte = 0 })
          ∷ []);
    }
    ∷ []

abbrev answers : Answers
answers = record {
  alert_counts = λ filter. got 2;
  types = got [];
  signatures = got (("x", 1) ∷ []);
  countries = got [];
  admin_logins = got [];
  failed_auth = got [];
  business = none;
  site_to_site = got [];
  ssl_dialup = got [];
}

abbrev threat_targets : List Fleet.Target
threat_targets =
    (record { label = "one"; host = "h"; threat_poll_enabled = true; answers = answers })
    ∷ (record {
      label = "two";
      host = "i";
      threat_poll_enabled = true;
      answers = record answers { countries = raised (faz_error "down") };
    })
    ∷ []

abbrev old_row : LogRows.Rollup
old_row = record {
  devices_logging = 5;
  devices_silent = 5;
  total_lograte = 5;
  collected_at = "2026-01-01";
}

-- The health card is there, the other caches are empty, and one history has an older row.
abbrev before : World
before = record {
  health = record { cache = ("one", card) ∷ []; stored = some (("one", card) ∷ []) };
  logs = record { cache = Logs.empty_cache; stored = none; rollups = old_row ∷ [] };
  threats = record { cache = Fleet.empty_cache; stored = none; rollups = [] };
}

abbrev after : World
after =
    polled usage percent same plain settings tokens "Bearer key" config appliances 1000 1
      "2026-01-02" "2026-01-02" "2025-12-03" "2025-12-03" log_targets threat_targets before

abbrev summary_of : World → Response
summary_of w = answer usage percent same plain settings tokens "Bearer key" config appliances w

summary_run : Unit {0}
unfolding summary_report infra_of max_disk faz_health_freshness LogRows.get_latest_rollup sorted
    log_figures
summary_run = tt

summary_tests :
    let r =
      summary_report usage percent config
        (card ∷ [])
        Logs.empty_cache
        (old_row ∷ [])
        Fleet.empty_cache
        [] in
    (r.faz_targets_healthy ≡ 1)
    × (r.faz_disk_used_pct ≡ some (pos 600))
    × (r.freshness.faz_health ≡ some "2026-01-01")
    × (r.devices_logging ≡ 5)
    × (r.log_stats_collected_at ≡ some "2026-01-01")
    × (r.devices_silent_details ≡ [])
unfolding summary_run
summary_tests = (refl, refl, refl, refl, refl, refl)

executive_summary-restarted_example :
    (summary_of (worker after) ≡ summary_of after)
    × (summary_of (restarted after) ≡ without_details (summary_of after))
unfolding poll_one_target LogCycle.answers get
executive_summary-restarted_example =
    executive_summary-restarted usage percent same plain settings tokens "Bearer key" config
      appliances 1000 1 "2026-01-02" "2026-01-02" "2025-12-03" "2025-12-03" log_targets
      threat_targets before refl refl (refl, tt) tt refl refl refl (refl, tt)

executive_summary-Consistent_example : Consistent appliances (summary_of before)
executive_summary-Consistent_example =
    executive_summary-Consistent usage percent same plain settings tokens "Bearer key" config
      appliances before
