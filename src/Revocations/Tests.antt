-- ===== src/Revocations/Tests.antt =====
-- Runs of the session checker, and the theorems at concrete times.
use t_log.Shared.{true, false, not, Option, none, some, [], ◌∷◌, ◌≡◌, ◌⊎◌, refl, arith}
use t_log.Shared.Int.{ℤ, pos, ◌+ℤ◌, ◌-ℤ◌, ltb_ℤ}
use t_log.Shared.Dict.{get, put}
use t_log.Shared.Json.{Json, int, float, bool, not_finite, str, dict, end, field}
use t_log.Revocations.{parse_revocations, Checker, new_checker, refresh, answer, sso_session_valid}
use t_log.Revocations.Checks.{
  Call, step, run, FetchedAt, sso_session_valid-fetched, accepted_within_grace,
}

-- 4tSuite's clock is 50 seconds ahead; ann logged out at its time 1045.
abbrev payload : Json
payload = dict (
    field "users" (dict (field "ann" (int (pos 1045)) end))
      (field "server_time" (float (pos 1050)) end))

abbrev start : Checker
start = new_checker (pos 900)

checker : Unit {0}
unfolding sso_session_valid refresh answer parse_revocations new_checker run step get put ◌+ℤ◌ ◌-ℤ◌
checker = tt

parse_tests :
    (parse_revocations payload ≡ some (("ann", pos 1045) ∷ [], pos 1050))
    × (parse_revocations (dict (field "users" (dict end) (field "server_time" (bool true) end)))
        ≡ none)
    × (parse_revocations (
          dict (
            field "users"
              (dict (field "x" not_finite end))
              (field "server_time" (int (pos 1)) end)))
        ≡ none)
    × (parse_revocations (str "x") ≡ none)
unfolding checker
parse_tests = (refl, refl, refl, refl)

-- Logged in at local time 990, that is 1040 of 4tSuite's: ended. At 996: kept.
skew_tests :
    ((sso_session_valid (pos 30) (pos 300) (pos 1000) (some payload) "ann" (pos 990) start).1
      ≡ false)
    × ((sso_session_valid (pos 30) (pos 300) (pos 1000) (some payload) "ann" (pos 996) start).1
        ≡ true)
    × ((sso_session_valid (pos 30) (pos 300) (pos 1201) none "bob" (pos 990) start).1 ≡ false)
    × ((sso_session_valid (pos 30) (pos 300) (pos 1200) none "bob" (pos 990) start).1 ≡ true)
unfolding checker
skew_tests = (refl, refl, refl, refl)

sso_session_valid-fetched_example :
    (sso_session_valid (pos 30) (pos 300) (pos 1000) (some payload) "ann" (pos 990) start).1
    ≡ elim (get "ann" (("ann", pos 1045) ∷ [])) [
      | none ↦ true
      | some logged_out_at ↦ not (ltb_ℤ (pos 990 +ℤ pos 1050) (logged_out_at +ℤ pos 1000))
    ]
unfolding checker
sso_session_valid-fetched_example =
    sso_session_valid-fetched (pos 30) (pos 300) (pos 1000) (pos 1050) (("ann", pos 1045) ∷ [])
      (some payload) "ann" (pos 990) start (omega arith) refl refl

abbrev ask : ℤ → Option Json → Call
ask now fetched = record { now = now; fetched = fetched; username = "bob"; login_at = pos 1 }

accepted_within_grace_example :
    (g : ℤ) × ((g ≡ pos 900)
      ⊎ FetchedAt g (ask (pos 1000) (some payload) ∷ ask (pos 1290) none ∷ []))
    × (ltb_ℤ (pos 300) (pos 1290 -ℤ g) ≡ false)
unfolding checker
accepted_within_grace_example =
    accepted_within_grace (pos 30) (pos 300) (pos 900) (ask (pos 1000) (some payload) ∷ [])
      (ask (pos 1290) none) refl
