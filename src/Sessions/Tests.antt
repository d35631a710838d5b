-- ===== src/Sessions/Tests.antt =====
-- Guarded requests, and the theorems at concrete sessions.
use t_log.Shared.{
  true, ◌||◌, none, some, [], ◌∷◌, String, ◌≡◌, refl, any, ok, contents, load_or_raise,
}
use t_log.Shared.Text.{starts_with}
use t_log.Shared.Dict.{Dict, get, values, keys}
use t_log.Shared.Sets.{eq_string, member, add, update, meets}
use t_log.Users.{StoredUser, load_users}
use t_log.Groups.{StoredGroup, load}
use t_log.Groups.Access.{is_admin, stored_admin, belongs, get_allowed_tabs, user_can_access_adom}
use t_log.Groups.Access.Rules.{gives_tab}
use t_log.Sessions.{
  Session, cleared, to_login, access_denied, App, is_api_path, sso_valid, guard, login_required,
  tab_required, admin_required, check_adom_access,
}
use t_log.Sessions.Guards.{Valid, admin_required-stored, tab_required-stored}
use t_log.Sessions.Local.{Ended, guard-gone}

abbrev ops : StoredGroup
ops = record {
  members = some ("bob" ∷ []);
  ad_groups = none;
  allowed_tabs = some ("log_search" ∷ []);
  adom_restrict = some true;
  allowed_adoms = some ("lab" ∷ []);
}

abbrev accounts : Dict StoredUser
accounts =
    ("ann", record { password_hash = some "h"; role = some "admin" })
    ∷ ("bob", record { password_hash = some "h"; role = none })
    ∷ []

abbrev site : App
site = record {
  users_file = contents accounts;
  groups = record {
    file = contents (("ops", ops) ∷ []);
    known_tabs = ("log_search", "Log Search") ∷ [];
  };
  checker = none;
  lifetime = 36000;
  now = 5000;
}

abbrev session_of : String → String → Session
session_of user role = record {
  user = some user;
  role = some role;
  auth_source = some "local";
  login_at = some 4000;
  sso_login_at = none;
  ad_groups = [];
  allowed_tabs = [];
}

abbrev admitted : String → String → Session
admitted user role = record (session_of user role) { allowed_tabs = "log_search" ∷ [] }

request : Unit {0}
unfolding guard is_api_path add login_required tab_required admin_required get member update meets
    load_users stored_admin belongs starts_with load_or_raise get_allowed_tabs user_can_access_adom
    values keys load sso_valid check_adom_access
request = tt

-- A demoted administrator is stopped at once; a deleted account is logged out.
guard_tests :
    (admin_required site "/admin/api/users" (session_of "ann" "viewer")
      ≡ ok (admitted "ann" "admin", none))
    × (tab_required site "/api/log" "log_search" (session_of "bob" "admin")
        ≡ ok (admitted "bob" "viewer", none))
    × (tab_required site "/api/log" "dashboard" (session_of "bob" "admin")
        ≡ ok (admitted "bob" "viewer", some access_denied))
    × (login_required site "/" (session_of "eve" "admin") ≡ ok (cleared, some to_login))
unfolding request
guard_tests = (refl, refl, refl, refl)

admin_required-stored_example :
    Valid site "/admin/api/users" (session_of "ann" "viewer") × (is_admin (some "admin") ≡ true)
unfolding request
admin_required-stored_example =
    admin_required-stored site "/admin/api/users" "ann" refl accounts refl
      (session_of "ann" "viewer") (admitted "ann" "admin")
      (record { password_hash = some "h"; role = some "admin" }) refl refl refl

tab_required-stored_example :
    Valid site "/api/log" (session_of "bob" "admin")
    × ((is_admin none || any (gives_tab "bob" [] "log_search") (values (("ops", ops) ∷ []))) ≡ true)
unfolding request
tab_required-stored_example =
    tab_required-stored site "/api/log" "bob" refl accounts refl "log_search"
      (session_of "bob" "admin") (admitted "bob" "viewer")
      (record { password_hash = some "h"; role = none }) (("ops", ops) ∷ []) refl refl refl refl

guard-gone_example : Ended (guard site "/" (λ s. none) (session_of "eve" "admin"))
unfolding request
guard-gone_example =
    guard-gone site "/" "eve" refl accounts refl (λ s. none) (session_of "eve" "admin") refl refl
      refl
