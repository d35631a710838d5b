-- ===== src/Login/Tests.antt =====
-- Runs of the login limiter, and the theorems at a concrete attack.
use t_log.Shared.{
  ℕ, ◌+◌, ◌≤◌, ◌<◌, false, Option, none, some, List, [], ◌∷◌, String, ◌==◌, ◌≡◌, refl, arith, All,
  if◌then◌else◌,
}
use t_log.Shared.Text.{ascii, strip}
use t_log.Shared.Dict.{get, put, remove}
use t_log.Login.{
  user_max, Failures, recent, norm_username, is_rate_limited, record_failure, Attempt, unauthorized,
  too_many, success, login, login_all,
}
use t_log.Login.Window.{user_count}
use t_log.Login.Handler.{InWindow, failures, login_all-le_user_max}

abbrev check : String → String → Option (String × List String)
check username password = if password == "right" then some ("viewer", []) else none

abbrev guess : ℕ → String → String → Attempt
guess t name password = record {
  asked_at = t;
  failed_at = t;
  ip = "10.0.0.9";
  username = name;
  password = password;
}

abbrev empty : Failures
empty = record { by_ip = []; by_user = [] }

abbrev attack : List Attempt
attack =
    guess 1000 "ann" "a"
    ∷ guess 1001 " ann" "b"
    ∷ guess 1002 "ann" "c"
    ∷ guess 1003 "ann" "d"
    ∷ guess 1004 "ann" "e"
    ∷ guess 1005 "ann" "f"
    ∷ []

login_run : Unit {0}
unfolding login_all login is_rate_limited record_failure recent norm_username strip get put remove
login_run = tt

-- The sixth guess is not checked; once the window has passed the right password is accepted.
attack_test :
    ((login_all ascii 10000 check attack empty).1
      ≡ unauthorized ∷ unauthorized ∷ unauthorized ∷ unauthorized ∷ unauthorized ∷ too_many ∷ [])
    × ((login ascii 10000 check
          (guess 1604 "ann" "right")
          (login_all ascii 10000 check attack empty).0).1
        ≡ success "viewer" [])
unfolding login_run
attack_test = (refl, refl)

abbrev InAttack : Attempt → Type 0
InAttack = InWindow ascii 10000 check "ann" 1100

guess-InWindow :
    (t : ℕ) (name password : String)
    → t ≤ 1100
    → 1100 < t + 600
    → (password == "right") ≡ false
    → InAttack (guess t name password)
guess-InWindow t name password h k wrong = record {
  began = h;
  counts = k;
  rejected = λ _. rw wrong;
}

attack-InWindow : All InAttack attack
attack-InWindow = (
  guess-InWindow 1000 "ann" "a" (omega arith) (omega arith) refl,
  (
    guess-InWindow 1001 " ann" "b" (omega arith) (omega arith) refl,
    (
      guess-InWindow 1002 "ann" "c" (omega arith) (omega arith) refl,
      (
        guess-InWindow 1003 "ann" "d" (omega arith) (omega arith) refl,
        (
          guess-InWindow 1004 "ann" "e" (omega arith) (omega arith) refl,
          (guess-InWindow 1005 "ann" "f" (omega arith) (omega arith) refl, tt),
        ),
      ),
    ),
  ),
)

login_all-le_user_max_example :
    user_count 1100 "ann" empty
      + failures ascii 10000 check "ann" 1100 attack (login_all ascii 10000 check attack empty).1
    ≤ user_max
unfolding login_run
login_all-le_user_max_example =
    login_all-le_user_max ascii 10000 check "ann" 1100 attack empty attack-InWindow (omega arith)
