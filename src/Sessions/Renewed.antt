-- ===== src/Sessions/Renewed.antt =====
-- Which sessions the guards go on with, and what they make of them.
use t_log.Shared.{
  ℕ, ◌+◌, true, false, Option, none, some, List, String, ◌==◌, ◌≡◌, refl, ap, ◌∙◌, ltb, default, ok,
}
use t_log.Shared.Dict.{Dict, get}
use t_log.Users.{StoredUser, load_users}
use t_log.Groups.Access.{get_allowed_tabs}
use t_log.Sessions.{
  Session, Denied, App, sso_valid, is_local, blank, refresh_tabs, check_entry, check_user,
  check_login, revalidate_session, and_then, guard_user, guard,
}

module _ (app : App) (path : String) (user : String) (filled : (user == "") ≡ false)
    (users : Dict StoredUser) (stored : load_users app.users_file ≡ ok users) (s : Session) (at : ℕ)
    (named : s.user ≡ some user) (opened : s.login_at ≡ some at)
    (valid : sso_valid app path s ≡ true) (fresh : ltb (at + app.lifetime) app.now ≡ false) where
  check_login-entry :
      check_login app path (some at) s ≡ check_entry app path user (get user users) s
  unfolding check_login check_user
  check_login-entry =
      let same : default s.user "" ≡ user = ap (λ o. default o "") named in
      rw (valid, fresh, same, filled, stored) refl

  guard-entry :
      (test : Session → Option Denied) (r : Session × Option Denied)
      → check_entry app path user (get user users) s ≡ ok r
      → guard app path test s ≡ ok (and_then app path test r)
  unfolding guard guard_user revalidate_session
  guard-entry test r h =
      let checked : check_login app path s.login_at s ≡ ok r =
        ap (λ o. check_login app path o s) opened ∙ check_login-entry ∙ h in
      let present : guard_user app path test (some user) s ≡ ok (and_then app path test r) =
        rw checked refl in
      ap (λ o. guard_user app path test o s) named ∙ present

  -- A user with an entry: the role and the tabs are read again.
  pub guard-stored :
      (test : Session → Option Denied) (e : StoredUser) (tabs : List String)
      → get user users ≡ some e
      → get_allowed_tabs app.groups app.users_file user s.ad_groups (some (default e.role "viewer"))
        ≡ ok tabs
      → let s' = record s { role = some (default e.role "viewer"); allowed_tabs = tabs } in
        guard app path test s ≡ ok (s', test s')
  unfolding check_entry refresh_tabs and_then
  guard-stored test e tabs found allowed =
      guard-entry test
        (record s { role = some (default e.role "viewer"); allowed_tabs = tabs }, none)
        (rw (found, allowed) refl)

  -- A user without one, whom SSO signed in: the tabs are read again, the role stays.
  pub guard-sso :
      (test : Session → Option Denied) (tabs : List String)
      → get user users ≡ none
      → is_local s.auth_source ≡ false
      → blank s.role ≡ false
      → get_allowed_tabs app.groups app.users_file user s.ad_groups s.role ≡ ok tabs
      → let s' = record s { allowed_tabs = tabs } in guard app path test s ≡ ok (s', test s')
  unfolding check_entry refresh_tabs and_then
  guard-sso test tabs absent remote role allowed =
      guard-entry test (record s { allowed_tabs = tabs }, none)
        (rw (absent, remote, role, allowed) refl)
