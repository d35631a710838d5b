-- ===== src/Sessions/Guards.antt =====
-- What a guarded route can rely on.
use t_log.Shared.{
  ℕ, ◌+◌, ◌≤◌, true, false, ◌||◌, Option, none, some, String, ◌==◌, ◌≡◌, refl, ap, ltb, default, ok,
  steps_of_ok, Bool-cases, Option-cases, inl, inr, arith, any,
}
use t_log.Shared.Dict.{Dict, get, values}
use t_log.Shared.Sets.{eq_string, member}
use t_log.Users.{StoredUser, load_users}
use t_log.Groups.{StoredGroup, load}
use t_log.Groups.Access.{is_admin, stored_admin, get_allowed_tabs}
use t_log.Groups.Access.Rules.{gives_tab, member-get_allowed_tabs}
use t_log.Sessions.{
  Session, Denied, App, end_session, sso_valid, refresh_tabs, check_entry, check_user, check_login,
  and_then, guard_user, revalidate_session, guard, tab_test, tab_required, admin_test,
  admin_required,
}

-- The role "viewer" that a missing one stands for is no administrator.
pub role-passed : (e : StoredUser) → is_admin (some (default e.role "viewer")) ≡ is_admin e.role
role-passed e = elim (Option-cases e.role) [ inl h ↦ rw h refl | inr (r, h) ↦ rw h refl ]

module _ (app : App) (path : String) where
  -- The session that a request came with was still valid.
  pub record Valid (s : Session) : Type 0 where
    pub user : String
    pub named : s.user ≡ some user
    pub login_at : ℕ
    pub logged_in : s.login_at ≡ some login_at
    pub in_time : app.now ≤ login_at + app.lifetime
    pub sso : sso_valid app path s ≡ true

  check_login-passed :
      (s s' : Session) (user : String) (o : Option ℕ)
      → s.user ≡ some user
      → s.login_at ≡ o
      → check_login app path o s ≡ ok (s', none)
      → Valid s × (check_user app path (default s.user "") s ≡ ok (s', none))
  unfolding check_login end_session
  check_login-passed s s' user none named e h = absurd (cc h)
  check_login-passed s s' user (some login_at) named e h =
      elim (Bool-cases (sso_valid app path s)) [
        | inr bad ↦ absurd (cc (rw bad at h))
        | inl good ↦ elim (Bool-cases (ltb (login_at + app.lifetime) app.now)) [
          | inl over ↦ absurd (cc (rw (good, over) at h))
          | inr fresh ↦ (
            record {
              user = user;
              named = named;
              login_at = login_at;
              logged_in = e;
              in_time = ground (arith, fresh);
              sso = good;
            },
            rw (good, fresh) at h,
          )
        ]
      ]

  and_then-passed :
      (test : Session → Option Denied) (s' : Session) (r : Session × Option Denied)
      → ok (and_then app path test r) ≡ ok (s', none)
      → (r ≡ (s', none)) × (test s' ≡ none)
  unfolding and_then
  and_then-passed test s' (s, none) h =
      let same : (s, test s) ≡ (s', none) = cc h in
      let same_session : s ≡ s' = ap (λ (r : Session × Option Denied). r.0) same in
      (
        ap (λ s. (s, none)) same_session,
        rw (← same_session) (ap (λ (r : Session × Option Denied). r.1) same),
      )
  and_then-passed test s' (s, some denied) h = absurd (cc h)

  guard_user-passed :
      (test : Session → Option Denied) (s s' : Session) (o : Option String)
      → s.user ≡ o
      → guard_user app path test o s ≡ ok (s', none)
      → Valid s × (check_user app path (default s.user "") s ≡ ok (s', none)) × (test s' ≡ none)
  unfolding guard_user revalidate_session
  guard_user-passed test s s' none named h = absurd (cc h)
  guard_user-passed test s s' (some user) named h =
      let (mid, last, first) =
        steps_of_ok (revalidate_session app path s) (λ r. ok (and_then app path test r)) h in
      let (through, passed) = and_then-passed test s' mid last in
      let (valid, checked) =
        check_login-passed s s' user s.login_at named refl (rw through at first) in
      (valid, checked, passed)

  guard-passed :
      (test : Session → Option Denied) (s s' : Session)
      → guard app path test s ≡ ok (s', none)
      → Valid s × (check_user app path (default s.user "") s ≡ ok (s', none)) × (test s' ≡ none)
  unfolding guard
  guard-passed test s s' h = guard_user-passed test s s' s.user refl h

  -- The user's entry in users.json, for a session that names a user.
  module _ (user : String) (filled : (user == "") ≡ false) (users : Dict StoredUser)
      (stored : load_users app.users_file ≡ ok users) where
    check_user-entry :
        (s : Session)
        → s.user ≡ some user
        → check_user app path (default s.user "") s ≡ check_entry app path user (get user users) s
    unfolding check_user
    check_user-entry s named = rw (named, filled, stored)

    -- What a user with an entry gets: the stored role, and the tabs of that role.
    refreshed :
        (s s' : Session) (e : StoredUser)
        → s.user ≡ some user
        → get user users ≡ some e
        → check_user app path (default s.user "") s ≡ ok (s', none)
        → (s'.user ≡ some user)
          × (s'.ad_groups ≡ s.ad_groups)
          × (s'.role ≡ some (default e.role "viewer"))
          × (get_allowed_tabs app.groups app.users_file user s.ad_groups s'.role
              ≡ ok s'.allowed_tabs)
    unfolding check_entry refresh_tabs
    refreshed s s' e named found h =
        let entry = rw (check_user-entry s named, found) at h in
        let role : Option String = some (default e.role "viewer") in
        let (tabs, last, first) =
          steps_of_ok (get_allowed_tabs app.groups app.users_file user s.ad_groups role)
            (λ tabs. ok (record s { role = role; allowed_tabs = tabs }, none)) entry in
        let filled_in : Session = record s { role = role; allowed_tabs = tabs } in
        let both : ◌≡◌ {A = Session × Option Denied} (filled_in, none) (s', none) = cc last in
        let same : filled_in ≡ s' = ap (λ (r : Session × Option Denied). r.0) both in
        rw (← same) (named, refl, refl, first)

    -- The session behind `tab_required` differs from the one before it in its role and its tabs only.
    pub tab_required-kept :
        (tab : String) (s s' : Session) (e : StoredUser)
        → s.user ≡ some user
        → get user users ≡ some e
        → tab_required app path tab s ≡ ok (s', none)
        → (s'.user ≡ some user)
          × (s'.ad_groups ≡ s.ad_groups)
          × (s'.role ≡ some (default e.role "viewer"))
    unfolding tab_required
    tab_required-kept tab s s' e named found h =
        let (valid, checked, passed) = guard-passed (tab_test app path tab) s s' h in
        let (kept, ad_groups, role, tabs) = refreshed s s' e named found checked in
        (kept, ad_groups, role)

    -- A route behind `admin_required` runs only for a valid session whose user is an administrator
    -- in users.json at that moment, whatever role the session was opened with. The user has an entry
    -- there.
    pub admin_required-stored :
        (s s' : Session) (e : StoredUser)
        → s.user ≡ some user
        → get user users ≡ some e
        → admin_required app path s ≡ ok (s', none)
        → Valid s × (is_admin e.role ≡ true)
    unfolding admin_required admin_test
    admin_required-stored s s' e named found h =
        let (valid, checked, passed) = guard-passed (admin_test app path) s s' h in
        let (_, _, role, tabs) = refreshed s s' e named found checked in
        (
          valid,
          elim (Bool-cases (is_admin e.role)) [
            | inl y ↦ y
            | inr n ↦ absurd (cc (rw (role, role-passed e, n) at passed))
          ],
        )

    -- A route behind `tab_required` runs only for a valid session whose user is an administrator in
    -- users.json, or belongs to a group of groups.json that lists the tab, both read at that moment.
    -- The user has an entry, and groups.json can be read.
    pub tab_required-stored :
        (tab : String) (s s' : Session) (e : StoredUser) (groups : Dict StoredGroup)
        → s.user ≡ some user
        → get user users ≡ some e
        → load app.groups ≡ ok groups
        → tab_required app path tab s ≡ ok (s', none)
        → Valid s
          × ((is_admin e.role || any (gives_tab user s.ad_groups tab) (values groups)) ≡ true)
    unfolding tab_required tab_test
    tab_required-stored tab s s' e groups named found loaded h =
        let (valid, checked, passed) = guard-passed (tab_test app path tab) s s' h in
        let (_, _, role, tabs) = refreshed s s' e named found checked in
        (
          valid,
          elim (Bool-cases (is_admin e.role)) [
            | inl y ↦ rw y
            | inr n ↦
                let viewer : stored_admin (get user users) ≡ false =
                  rw found (unfold stored_admin in n) in
                let not_admin : is_admin s'.role ≡ false = rw (role, role-passed e) n in
                let given =
                  member-get_allowed_tabs app.groups app.users_file user users groups stored loaded
                    viewer s.ad_groups s'.role tab not_admin in
                let listed : member tab s'.allowed_tabs
                    ≡ any (gives_tab user s.ad_groups tab) (values groups) =
                  cc (rw tabs at given) in
                rw n (elim (Bool-cases (member tab s'.allowed_tabs)) [
                  | inl y ↦ rw (← listed) y
                  | inr none_lists ↦ absurd (cc (rw (not_admin, none_lists) at passed))
                ])
          ],
        )
