-- ===== src/Users/Tests.antt =====
-- Runs of app/auth.py, and the theorems at concrete accounts.
use t_log.Shared.{
  Bool, Option, none, some, [], ◌∷◌, String, ◌==◌, ◌≡◌, refl, ok, err, value_error, missing,
  contents,
}
use t_log.Shared.Text.{ascii}
use t_log.Shared.Dict.{get, put}
use t_log.Users.{
  StoredUser, UsersFile, load_users, authenticate, validate_password_policy, add_user,
}
use t_log.Users.Accounts.{IsStrong, authenticate-add_user}

-- A hash that keeps the password, and its check.
abbrev plain : String → String
plain s = s

abbrev compares : String → String → Option Bool
compares p h = some (p == h)

abbrev ann : StoredUser
ann = record { password_hash = some "Correct-Horse-9"; role = some "admin" }

abbrev one_user : UsersFile
one_user = contents (("ann", ann) ∷ [])

abbrev two_users : UsersFile
two_users = contents (
    ("ann", ann)
    ∷ ("bob", record { password_hash = some "Battery_Staple1"; role = some "viewer" })
    ∷ [])

add_bob : add_user ascii plain one_user "bob" "Battery_Staple1" "viewer" ≡ ok two_users
unfolding add_user validate_password_policy load_users put
add_bob = refl

add_weak :
    add_user ascii plain one_user "bob" "battery_staple1" "viewer"
    ≡ err (value_error "Password must include at least one uppercase letter")
unfolding add_user validate_password_policy
add_weak = refl

login_tests :
    (authenticate compares two_users "ann" "Correct-Horse-9" ≡ ok (some ("admin", [])))
    × (authenticate compares two_users "ann" "wrong" ≡ ok none)
    × (authenticate compares two_users "eve" "" ≡ ok none)
    × (authenticate compares missing "ann" "x" ≡ ok none)
unfolding authenticate load_users get
login_tests = (refl, refl, refl, refl)

authenticate-add_user_example :
    IsStrong ascii "Battery_Staple1"
    × (authenticate compares two_users "bob" "Battery_Staple1" ≡ ok (some ("viewer", [])))
authenticate-add_user_example =
    authenticate-add_user ascii plain compares one_user two_users "bob" "Battery_Staple1" "viewer"
      add_bob refl
