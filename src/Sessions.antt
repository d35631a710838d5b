-- ===== src/Sessions.antt =====
-- app/decorators.py: the checks that every protected route makes on the session. The session is
-- Flask's, a record of the keys that the code reads; the checker of SSO sessions is a parameter here
-- and the one of `Revocations` in the application.
pub mod Guards
pub mod Local
pub mod Renewed
mod Tests
use t_log.Shared.{
  ℕ, ◌+◌, Bool, true, false, not, ◌&&◌, ◌||◌, Option, none, some, List, [], ◌∷◌, String, ◌==◌, ltb,
  if◌then◌else◌, default, is_some, Result, ok, err, ◌>>=◌,
}
use t_log.Shared.Text.{starts_with}
use t_log.Shared.Dict.{Dict, get}
use t_log.Shared.Sets.{eq_string, member}
use t_log.Users.{StoredUser, UsersFile, load_users}
use t_log.Groups.{Groups}
use t_log.Groups.Access.{get_allowed_tabs, user_can_access_adom, is_admin}

pub record Session : Type 0 where
  pub user : Option String
  pub role : Option String
  pub auth_source : Option String
  pub login_at : Option ℕ
  pub sso_login_at : Option ℕ
  pub ad_groups : List String
  pub allowed_tabs : List String

-- `session.clear()`
abbrev pub cleared : Session
cleared = record {
  user = none;
  role = none;
  auth_source = none;
  login_at = none;
  sso_login_at = none;
  ad_groups = [];
  allowed_tabs = [];
}

-- What a guard answers instead of the route.
pub data Denied : Type 0 where
  to_login not_authenticated expired access_denied admin_role_required forbidden : Denied

unfoldable pub is_api_path : String → Bool
is_api_path path = starts_with path "/api/" || starts_with path "/admin/api/"

-- What the application holds around a request.
pub record App : Type 0 where
  pub users_file : UsersFile
  pub groups : Groups
  pub checker : Option (String → ℕ → Bool)
  pub lifetime : ℕ
  pub now : ℕ

-- `if not flask_session.get("role")`
unfoldable pub blank : Option String → Bool
blank none = true
blank (some r) = r == ""

unfoldable pub is_local : Option String → Bool
is_local none = false
is_local (some source) = source == "local"

module _ (app : App) (path : String) where
  -- `flask_session.clear()` and the answer
  end_session : Denied → Session × Option Denied
  end_session api = (cleared, some (if is_api_path path then api else to_login))

  -- The session that SSO established is still valid.
  unfoldable pub sso_valid : Session → Bool
  sso_valid s = elim s.sso_login_at [
    | none ↦ true
    | some at ↦ elim app.checker [ none ↦ true | some valid ↦ valid (default s.user "") at ]
  ]

  -- `flask_session["allowed_tabs"] = list(get_allowed_tabs(...))`
  refresh_tabs : String → Session → Result (Session × Option Denied)
  refresh_tabs username s = do
    tabs ← get_allowed_tabs app.groups app.users_file username s.ad_groups s.role
    ok (record s { allowed_tabs = tabs }, none)

  -- The part that reads the user's entry again.
  check_entry : String → Option StoredUser → Session → Result (Session × Option Denied)
  unfolding end_session refresh_tabs is_local blank
  check_entry username none s =
      let tabs = refresh_tabs username s in
      if is_local s.auth_source || blank s.role then ok (end_session not_authenticated) else tabs
  check_entry username (some e) s =
      refresh_tabs username (record s { role = some (default e.role "viewer") })

  check_user : String → Session → Result (Session × Option Denied)
  unfolding check_entry
  check_user username s =
      if username == ""
      then ok (s, none)
      else do users ← load_users app.users_file; check_entry username (get username users) s

  -- The part after `login_at` was found, or not.
  check_login : Option ℕ → Session → Result (Session × Option Denied)
  unfolding check_user end_session
  check_login none s = ok (cleared, some to_login)
  check_login (some login_at) s =
      if not (sso_valid s)
      then ok (end_session not_authenticated)
      else if ltb (login_at + app.lifetime) app.now
      then ok (end_session expired)
      else check_user (default s.user "") s

  pub revalidate_session : Session → Result (Session × Option Denied)
  unfolding check_login
  revalidate_session s = check_login s.login_at s

  -- The last test of a decorator runs where the session was found valid.
  and_then : (Session → Option Denied) → Session × Option Denied → Session × Option Denied
  and_then test (s, none) = (s, test s)
  and_then test (s, some denied) = (s, some denied)

  -- `"user" not in flask_session` is answered first.
  guard_user :
      (Session → Option Denied) → Option String → Session → Result (Session × Option Denied)
  unfolding revalidate_session and_then
  guard_user test none s = ok (s, some (if is_api_path path then not_authenticated else to_login))
  guard_user test (some user) s = do checked ← revalidate_session s; ok (and_then test checked)

  -- The body of the three decorators around their last test; `none` lets the route run.
  pub guard : (Session → Option Denied) → Session → Result (Session × Option Denied)
  unfolding guard_user
  guard test s = guard_user test s.user s

  pub login_required : Session → Result (Session × Option Denied)
  unfolding guard
  login_required = guard (λ s. none)

  -- The last test of `tab_required(tab_key)`.
  tab_test : String → Session → Option Denied
  tab_test tab_key s =
      if not (is_admin s.role) && not (member tab_key s.allowed_tabs)
      then some (if is_api_path path then access_denied else forbidden)
      else none

  unfoldable pub tab_required : String → Session → Result (Session × Option Denied)
  unfolding guard tab_test
  tab_required tab_key = guard (tab_test tab_key)

  -- The last test of `admin_required`.
  admin_test : Session → Option Denied
  admin_test s =
      if is_admin s.role
      then none
      else some (if is_api_path path then admin_role_required else forbidden)

  unfoldable pub admin_required : Session → Result (Session × Option Denied)
  unfolding guard admin_test
  admin_required = guard admin_test

  -- `check_adom_access`: `true` is the 403.
  unfoldable pub check_adom_access : String → Session → Result Bool
  check_adom_access adom s = if is_admin s.role then ok false else do
    allowed ← user_can_access_adom app.groups app.users_file (default s.user "") adom s.ad_groups
    ok (not allowed)
