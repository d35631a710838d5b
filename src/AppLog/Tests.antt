-- ===== src/AppLog/Tests.antt =====
-- Runs of the log, and the theorems at concrete entries.
use t_log.Shared.{
  ◌-◌, ◌≤◌, min, ◌&&◌, if◌then◌else◌, none, some, [], ◌∷◌, String, ◌==◌, ◌≡◌, refl, keep, drop,
  length,
}
use t_log.Shared.Int.{pos, negsuc}
use t_log.Shared.Text.{ascii_with, Unicode}
use t_log.Shared.Dict.{get}
use t_log.AppLog.{
  rank, max_entries, Entry, Log, append_entry, set_log_level, app_log, clamp, last_entries,
  get_log_entries, clear_log_entries,
}
use t_log.AppLog.Ring.{level_ok, component_ok, get_log_entries_lem}

abbrev plain : Unicode
plain = ascii_with (λ s. s) (λ s. if s == "warn" then "WARN" else s)

abbrev entry : String → String → Entry
entry level message = record {
  ts = "t";
  level = level;
  component = "auth";
  message = message;
  extra = [];
}

abbrev log : Log
log = record { buffer = entry "INFO" "a" ∷ entry "ERROR" "b" ∷ []; current_level = "INFO" }

log_run : Unit {0}
unfolding app_log get_log_entries append_entry set_log_level clear_log_entries rank clamp
    last_entries get
log_run = tt

-- A limit of 0 or below it gives one entry; a level below the current one is not logged.
log_tests :
    (get_log_entries plain (some "warn") none (pos 0) (app_log plain "warn" (entry "" "c") log)
      ≡ entry "WARN" "c" ∷ [])
    × (get_log_entries plain none (some "auth") (negsuc 4) log ≡ entry "ERROR" "b" ∷ [])
    × (app_log plain "DEBUG" (entry "" "d") log ≡ log)
unfolding log_run
log_tests = (refl, refl, refl)

get_log_entries_lem_example :
    let wanted =
      keep (λ e. level_ok plain (some "warn") e && component_ok plain none e) log.buffer in
    let answer = get_log_entries plain (some "warn") none (pos 5) log in
    (answer ≡ drop (length wanted - clamp plain (pos 5)) wanted)
    × (length answer ≡ min (clamp plain (pos 5)) (length wanted))
    × (1 ≤ clamp plain (pos 5))
    × (clamp plain (pos 5) ≤ max_entries)
get_log_entries_lem_example = get_log_entries_lem plain (some "warn") none (pos 5) log
