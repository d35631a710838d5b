-- ===== src/Revocations.antt =====
-- app/tsuite_adapter.py: the checker that ends SSO sessions which 4tSuite has revoked. Times are
-- whole seconds and may be negative; a fetch that fails, in any way, is `none`.
pub mod Checks
pub mod Fetch
mod Tests
use t_log.Shared.{
  Bool, true, false, not, ◌||◌, Option, none, some, List, [], ◌∷◌, String, if◌then◌else◌,
}
use t_log.Shared.Int.{ℤ, pos, ◌+ℤ◌, ◌-ℤ◌, ltb_ℤ, leb_ℤ}
use t_log.Shared.Dict.{Dict, get, put}
use t_log.Shared.Json.{Json, null, bool, int, float, not_finite, str, list, dict, fields}

-- The number that `isinstance(x, (int, float))`, not a bool and finite, lets through.
finite : Option Json → Option ℤ
finite (some (int n)) = some n
finite (some (float n)) = some n
finite (some v) = none
finite none = none

-- The loop over `users.items()`; `none` is the ValueError.
parse_users : Dict ℤ → Dict Json → Option (Dict ℤ)
parse_users parsed [] = some parsed
parse_users parsed ((name, v) ∷ rest) = elim (finite (some v)) [
  | none ↦ none
  | some t ↦ parse_users (put name t parsed) rest
]

parse_parts : Option Json → Option ℤ → Option (Dict ℤ × ℤ)
unfolding parse_users finite
parse_parts (some (dict users)) (some server_time) = elim (parse_users [] (fields users)) [
  | none ↦ none
  | some parsed ↦ some (parsed, server_time)
]
parse_parts _ _ = none

pub parse_revocations : Json → Option (Dict ℤ × ℤ)
unfolding parse_parts finite
parse_revocations (dict payload) =
    parse_parts (get "users" (fields payload)) (finite (get "server_time" (fields payload)))
parse_revocations _ = none

-- The `state` of `make_session_checker`.
pub record Checker : Type 0 where
  pub users : Dict ℤ
  pub offset : ℤ
  pub fetched_at : Option ℤ
  pub last_good : ℤ

pub new_checker : ℤ → Checker
new_checker now = record { users = []; offset = pos 0; fetched_at = none; last_good = now }

abbrev pub retry_seconds : ℤ
retry_seconds = pos 5

pub min_ℤ : ℤ → ℤ → ℤ
min_ℤ a b = if leb_ℤ a b then a else b

-- `logged_out_at is None or not (logged_out_at > login_at + offset)`
pub allows : ℤ → ℤ → Option ℤ → Bool
allows login_at offset none = true
allows login_at offset (some logged_out_at) = not (ltb_ℤ (login_at +ℤ offset) logged_out_at)

module _ (cache_seconds grace_seconds : ℤ) where
  -- `now - state["last_good"] > grace_seconds`
  abbrev pub past_grace : ℤ → Checker → Bool
  past_grace now s = ltb_ℤ grace_seconds (now -ℤ s.last_good)

  -- The next time at which a fetch is made after one that failed.
  retry_after : ℤ → Checker → ℤ
  retry_after now s = if past_grace now s then min_ℤ cache_seconds retry_seconds else cache_seconds

  unavailable : ℤ → Checker → Checker
  unavailable now s = record s { fetched_at = some (now -ℤ cache_seconds +ℤ retry_after now s) }

  -- `fetched` is what `fetch()` returned, `none` if it raised.
  pub refresh : ℤ → Option Json → Checker → Checker
  unfolding retry_after min_ℤ unavailable
  refresh now none s = unavailable now s
  refresh now (some payload) s = elim (parse_revocations payload) [
    | none ↦ unavailable now s
    | some (users, server_time) ↦ record {
      users = users;
      offset = server_time -ℤ now;
      fetched_at = some now;
      last_good = now;
    }
  ]

  -- `fetched_at is None or now - fetched_at >= cache_seconds`
  abbrev pub is_due : ℤ → Checker → Bool
  is_due now s = elim s.fetched_at [ none ↦ true | some t ↦ leb_ℤ cache_seconds (now -ℤ t) ]

  -- The answer from the state as it is after a possible refresh.
  pub answer : ℤ → String → ℤ → Checker → Bool
  unfolding allows
  answer now username login_at s =
      if past_grace now s then false else allows login_at s.offset (get username s.users)

  pub sso_session_valid : ℤ → Option Json → String → ℤ → Checker → Checker × Bool
  sso_session_valid now fetched username login_at s =
      let s' = if is_due now s then refresh now fetched s else s in
      (s', answer now username login_at s')
