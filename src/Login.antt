-- ===== src/Login.antt =====
-- app/routes/auth_routes.py: the sliding-window limit on failed logins, and the /login handler
-- around it. Times are whole ticks of the monotonic clock; `now - 600 < t` is written
-- `now < t + 600`. `lower` is Python's `str.lower`.
pub mod Window
pub mod Handler
mod Tests
use t_log.Shared.{
  ℕ, ◌+◌, Bool, true, false, not, ◌&&◌, ◌||◌, Option, none, some, List, [], ◌∷◌, ◌++◌, String, ◌==◌,
  ltb, leb, if◌then◌else◌, default, keep, length,
}
use t_log.Shared.Text.{strip, Unicode}
use t_log.Shared.Dict.{Dict, get, put, remove, has}

abbrev pub window_seconds : ℕ
window_seconds = 600

abbrev pub ip_max : ℕ
ip_max = 10

abbrev pub user_max : ℕ
user_max = 5

-- `_ip_failures` and `_user_failures`, and the bound `_USER_FAILURES_MAX_KEYS` on the second.
pub record Failures : Type 0 where
  pub by_ip : Dict (List ℕ)
  pub by_user : Dict (List ℕ)

-- `_failures[key]` of a defaultdict
abbrev pub times : String → Dict (List ℕ) → List ℕ
times key d = default (get key d) []

-- `[t for t in times if t > cutoff]`
pub recent : ℕ → List ℕ → List ℕ
recent now = keep (λ t. ltb now (t + window_seconds))

pub norm_username : Unicode → String → String
norm_username u username = u.lower (strip username)

module _ (u : Unicode) (max_keys : ℕ) where
  pub is_rate_limited : ℕ → String → String → Failures → Failures × Bool
  is_rate_limited now ip username s =
      let norm = norm_username u username in
      let ips = recent now (times ip s.by_ip) in
      let users = recent now (times norm s.by_user) in
      (
        record { by_ip = put ip ips s.by_ip; by_user = put norm users s.by_user },
        leb ip_max (length ips) || leb user_max (length users),
      )

  -- `del _user_failures[next(iter(_user_failures))]`
  drop_oldest : Dict (List ℕ) → Dict (List ℕ)
  drop_oldest [] = []
  drop_oldest ((k, ts) ∷ d) = remove k ((k, ts) ∷ d)

  pub record_failure : ℕ → String → String → Failures → Failures
  unfolding drop_oldest
  record_failure now ip username s =
      let norm = norm_username u username in
      let full = leb max_keys (length s.by_user) && not (has norm s.by_user) in
      let users = if full then drop_oldest s.by_user else s.by_user in
      record {
        by_ip = put ip (times ip s.by_ip ++ now ∷ []) s.by_ip;
        by_user = put norm (times norm users ++ now ∷ []) users;
      }

  pub clear_failures : String → String → Failures → Failures
  clear_failures ip username s = record {
    by_ip = remove ip s.by_ip;
    by_user = remove (norm_username u username) s.by_user;
  }

-- The fields of a POST to /login, and the two readings of the clock on its path.
pub record Attempt : Type 0 where
  pub asked_at : ℕ
  pub failed_at : ℕ
  pub ip : String
  pub username : String
  pub password : String

-- The status of the answer; a success carries the role and the directory groups.
pub data Answer : Type 0 where
  bad_request unauthorized too_many : Answer
  success : String → List String → Answer

module _ (u : Unicode) (max_keys : ℕ)
    (authenticate : String → String → Option (String × List String)) where
  -- The rest of the handler once the limiter let the attempt through.
  decide : Attempt → String → Failures → Option (String × List String) → Failures × Answer
  decide a username s (some (role, ad_groups)) =
      (clear_failures u max_keys a.ip username s, success role ad_groups)
  decide a username s none = (record_failure u max_keys a.failed_at a.ip username s, unauthorized)

  pub login : Attempt → Failures → Failures × Answer
  unfolding decide
  login a s =
      let username = strip a.username in
      let (asked, limited) = is_rate_limited u max_keys a.asked_at a.ip username s in
      if username == "" || a.password == ""
      then (s, bad_request)
      else if limited
      then (asked, too_many)
      else decide a username asked (authenticate username a.password)

  pub login_all : List Attempt → Failures → Failures × List Answer
  login_all [] s = (s, [])
  login_all (a ∷ rest) s =
      let (s', answer) = login a s in
      let (s'', answers) = login_all rest s' in (s'', answer ∷ answers)
