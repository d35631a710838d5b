-- ===== src/LogHistory.antt =====
-- app/log_stats_history.py: the table of rollups, rows in the order of their insertion. The database
-- compares `collected_at` as text; of rows with the same one `LIMIT 1` may give any, here the first.
use t_log.Shared.{Option, List, [], ◌∷◌, ◌++◌, String, ℕ, keep}
use t_log.Shared.Sort.{sorted, text_le, first}

pub record Rollup : Type 0 where
  pub devices_logging : ℕ
  pub devices_silent : ℕ
  pub total_lograte : ℕ
  pub collected_at : String

unfoldable pub write_rollup : Rollup → List Rollup → List Rollup
write_rollup r rows = rows ++ r ∷ []

-- `cutoff` is the time 30 days before the poll, as text.
unfoldable pub prune_old_rows : String → List Rollup → List Rollup
prune_old_rows cutoff rows = keep (λ r. text_le cutoff r.collected_at) rows

unfoldable pub get_latest_rollup : List Rollup → Option Rollup
get_latest_rollup rows = first (sorted (λ a b. text_le b.collected_at a.collected_at) rows)
