-- ===== src/AppLog.antt =====
-- app/app_logger.py: the log levels, the ring buffer of the last entries, and its queries. The clock
-- and the extra fields of an entry are values that the buffer carries along.
pub mod Ring
mod Tests
use Prim.Native.String.{◌++◌ as append}
use t_log.Shared.{
  ℕ, ◌+◌, ◌-◌, min, max, Bool, true, false, not, Option, none, some, List, [], ◌∷◌, ◌++◌, String,
  ◌==◌, if◌then◌else◌, default, is_some, ltb, leb, keep, length, drop, Result, ok, err, value_error,
}
use t_log.Shared.Int.{ℤ, pos, negsuc, pos_part}
use t_log.Shared.Text.{Unicode}
use t_log.Shared.Dict.{Dict, get, has}

-- `_LEVEL_RANK`
abbrev pub level_rank : Dict ℕ
level_rank = ("TRACE", 0) ∷ ("DEBUG", 1) ∷ ("INFO", 2) ∷ ("WARN", 3) ∷ ("ERROR", 4) ∷ []

-- `_LEVEL_RANK.get(level, 0)`
pub rank : String → ℕ
rank level = default (get level level_rank) 0

abbrev pub max_entries : ℕ
max_entries = 2000

pub record Entry : Type 0 where
  pub ts : String
  pub level : String
  pub component : String
  pub message : String
  pub extra : Dict String

-- `_buffer`, the oldest entry first, and `_current_level`.
pub record Log : Type 0 where
  pub buffer : List Entry
  pub current_level : String

-- `_buffer.append(entry)` of a deque with `maxlen`
pub append_entry : Entry → List Entry → List Entry
append_entry e es =
    let all_entries = es ++ e ∷ [] in drop (length all_entries - max_entries) all_entries

module _ (u : Unicode) where
  pub set_log_level : String → Log → Result Log
  set_log_level level s =
      let upper = u.upper level in
      if has upper level_rank
      then ok (record s { current_level = upper })
      else err (
          value_error (
            append "Invalid log level '"
              (append upper "'. Choose from: TRACE, DEBUG, INFO, WARN, ERROR")))

  unfoldable pub app_log : String → Entry → Log → Log
  unfolding append_entry rank
  app_log level e s =
      let upper = u.upper level in
      if ltb (rank upper) (rank s.current_level)
      then s
      else record s { buffer = append_entry (record e { level = upper }) s.buffer }

  -- `max(1, min(limit, _MAX_ENTRIES))`
  pub clamp : ℤ → ℕ
  clamp limit = max 1 (min (pos_part limit) max_entries)

  by_level : Option String → List Entry → List Entry
  by_level none es = es
  by_level (some level) es =
      let found = keep (λ e. leb (rank (u.upper level)) (rank e.level)) es in
      if level == "" then es else found

  by_component : Option String → List Entry → List Entry
  by_component none es = es
  by_component (some component) es =
      let found = keep (λ e. e.component == component) es in if component == "" then es else found

  -- `entries[-limit:]`
  pub last_entries : ℕ → List Entry → List Entry
  last_entries n es = drop (length es - n) es

  pub get_log_entries : Option String → Option String → ℤ → Log → List Entry
  unfolding by_level by_component last_entries
  get_log_entries level component limit s =
      last_entries (clamp limit) (by_component component (by_level level s.buffer))

pub clear_log_entries : Log → Log
clear_log_entries s = record s { buffer = [] }
