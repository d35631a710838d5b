-- ===== src/Sessions/Local.antt =====
-- What happens to the sessions of a deleted local account, and to the ADOM check.
use t_log.Shared.{
  ℕ, ◌+◌, false, not, Option, none, some, String, ◌==◌, ◌≡◌, refl, ap, ltb, if◌then◌else◌, default,
  Result, ok, Bool-cases, List, inl, inr, any,
}
use t_log.Shared.Dict.{Dict, get, values}
use t_log.Users.{StoredUser, load_users}
use t_log.Groups.{StoredGroup, load}
use t_log.Groups.Access.{is_admin, stored_admin, get_allowed_adoms, user_can_access_adom, within}
use t_log.Groups.Access.Rules.{gives_adom, user_can_access_adom-gives_adom}
use t_log.Sessions.{
  Session, cleared, Denied, to_login, not_authenticated, App, is_api_path, end_session, sso_valid,
  is_local, check_entry, check_user, check_login, revalidate_session, guard, guard_user, and_then,
  check_adom_access,
}

-- The session was ended, and the request is answered by a refusal.
abbrev pub Ended : Result (Session × Option Denied) → Type 0
Ended r = (d : Denied) × (r ≡ ok (cleared, some d))

module _ (app : App) (path : String) (user : String) (filled : (user == "") ≡ false)
    (users : Dict StoredUser) (stored : load_users app.users_file ≡ ok users) where
  check_user-gone :
      (s : Session)
      → s.auth_source ≡ some "local"
      → get user users ≡ none
      → Ended (check_user app path user s)
  unfolding check_user check_entry end_session is_local
  check_user-gone s local gone = (
    if is_api_path path then not_authenticated else to_login,
    rw (filled, stored, gone, local) refl,
  )

  check_login-gone :
      (s : Session) (o : Option ℕ)
      → s.user ≡ some user
      → s.auth_source ≡ some "local"
      → get user users ≡ none
      → Ended (check_login app path o s)
  unfolding check_login end_session
  check_login-gone s none named local gone = (_, refl)
  check_login-gone s (some at) named local gone = elim (Bool-cases (sso_valid app path s)) [
    | inr bad ↦ rw bad (_, refl)
    | inl good ↦ elim (Bool-cases (ltb (at + app.lifetime) app.now)) [
      | inl over ↦ rw (good, over) (_, refl)
      | inr fresh ↦
          let same : default s.user "" ≡ user = ap (λ o. default o "") named in
          rw (good, fresh, same) (check_user-gone s local gone)
    ]
  ]

  guard_user-gone :
      (test : Session → Option Denied) (s : Session) (o : Option String)
      → s.user ≡ some user
      → s.user ≡ o
      → s.auth_source ≡ some "local"
      → get user users ≡ none
      → Ended (guard_user app path test o s)
  unfolding guard_user revalidate_session and_then
  guard_user-gone test s none named same local gone = absurd (cc)
  guard_user-gone test s (some u) named same local gone =
      let (d, ended) = check_login-gone s s.login_at named local gone in (d, rw ended refl)

  -- Once the account of a local user is gone from users.json, the next guarded request of any of
  -- its sessions clears the session and is refused, whatever the guard tests and whatever the role
  -- and the age of the session.
  pub guard-gone :
      (test : Session → Option Denied) (s : Session)
      → s.user ≡ some user
      → s.auth_source ≡ some "local"
      → get user users ≡ none
      → Ended (guard app path test s)
  unfolding guard
  guard-gone test s named local gone = guard_user-gone test s s.user named refl local gone

  -- For a session and a user that are no administrators, the ADOM check lets the request pass
  -- exactly when a group that the user belongs to is unrestricted or lists the ADOM.
  pub check_adom_access-gives_adom :
      (s : Session) (adom : String) (groups : Dict StoredGroup)
      → s.user ≡ some user
      → is_admin s.role ≡ false
      → stored_admin (get user users) ≡ false
      → load app.groups ≡ ok groups
      → check_adom_access app path adom s
        ≡ ok (not (any (gives_adom user s.ad_groups adom) (values groups)))
  unfolding check_adom_access
  check_adom_access-gives_adom s adom groups named role viewer loaded =
      rw
        (
          role,
          named,
          user_can_access_adom-gives_adom app.groups app.users_file user users groups stored loaded
              viewer s.ad_groups adom,
        )
        refl

-- The ADOM check of a request and the list of ADOMs of its user agree.
pub check_adom_access-within :
    (app : App) (path : String) (s : Session) (adom : String) (allowed : Option (List String))
    → get_allowed_adoms app.groups app.users_file (default s.user "") s.ad_groups s.role
      ≡ ok allowed
    → check_adom_access app path adom s ≡ ok (not (within adom allowed))
unfolding check_adom_access user_can_access_adom get_allowed_adoms within
check_adom_access-within app path s adom allowed h = elim (Bool-cases (is_admin s.role)) [
  | inl admin ↦
      let unrestricted : none ≡ allowed = cc (rw admin at h) in rw (admin, ← unrestricted) refl
  | inr other ↦ rw other (rw (rw other at h) refl)
]
