-- ===== src/ThreatHistory.antt =====
-- app/threat_stats_history.py: the table of the fleet's threat figures, rows in the order of their
-- insertion. A list or an object is stored as JSON and read back as it was; the share of blocked
-- detections is the pair that it is computed from. The database compares `collected_at` as text; of
-- rows with the same one `LIMIT 1` may give any, here the first.
pub mod Latest
use t_log.Shared.{ℕ, Bool, Option, List, [], ◌∷◌, ◌++◌, String, keep}
use t_log.Shared.Sort.{sorted, text_le, first}
use t_log.ThreatStats.{Top, BySeverity}

pub record Rollup : Type 0 where
  pub alerts_unacked_total : ℕ
  pub alerts_unacked_by_severity : BySeverity
  pub ips_detections_24h : ℕ
  pub ips_blocked_24h : ℕ
  pub top_signatures : Top
  pub top_source_countries : Top
  pub failed_admin_logins_24h : ℕ
  pub devices_with_failed_logins : ℕ
  pub top_failed_sources : Top
  pub admin_logins_outside_hours_24h : ℕ
  pub ipsec_tunnels_total : ℕ
  pub ipsec_tunnels_down : ℕ
  pub ssl_vpn_users_now : ℕ
  pub collected_at : String

unfoldable pub write_rollup : Rollup → List Rollup → List Rollup
write_rollup r rows = rows ++ r ∷ []

-- `ORDER BY collected_at DESC`
abbrev pub newer : Rollup → Rollup → Bool
newer a b = text_le b.collected_at a.collected_at

unfoldable pub get_latest_rollup : List Rollup → Option Rollup
get_latest_rollup rows = first (sorted newer rows)

-- `cutoff` is the time `retention_days` before the poll, as text.
unfoldable pub prune_old_rows : String → List Rollup → List Rollup
prune_old_rows cutoff rows = keep (λ r. text_le cutoff r.collected_at) rows
