-- ===== src/Admin/Requests/Guarded.antt =====
-- What a request to the admin API may do: nothing without an administrator, and no secret goes out.
use t_log.Shared.{
  true, false, Option, none, some, String, ◌⊎◌, inl, inr, ◌==◌, ◌≡◌, sym, ap, ◌∙◌, default, ok,
  steps_of_ok,
}
use t_log.Shared.Text.{Unicode}
use t_log.Shared.Dict.{Dict, get}
use t_log.Users.{StoredUser, load_users}
use t_log.Groups.Access.{is_admin}
use t_log.Sessions.{Session, Denied, admin_required}
use t_log.Sessions.Guards.{admin_required-stored}
use t_log.Admin.{Site, Response}
use t_log.Admin.Answers.{
  IsSound, groups_list-IsSound, groups_create-IsSound, groups_update-IsSound, groups_delete-IsSound,
}
use t_log.Admin.Stores.Answers.{
  targets-IsSound, targets_create-IsSound, logs-IsSound, reads-IsSound, tokens-IsSound,
}
use t_log.Admin.Requests.{
  Call, groups_list, targets_list, users_list, tabs_list, settings_get, tokens_list, logs_clear,
  groups_create, groups_update, groups_delete, targets_delete, tokens_revoke, targets_create,
  targets_update, logs_get, logs_set_level, settings_update, tokens_create, handle, admitted,
  request, blank_body,
}

module _ (u : Unicode) (hash : String → String) (now : String) where
  -- Every handler of the admin API leaves the stores as they were where it answers an error, and no other answer holds the bearer token of a target or the hash of an API token.
  pub handle-IsSound :
      (by : String) (c : Call) (site : Site) → IsSound u now site (handle u hash now by c site)
  unfolding handle
  handle-IsSound by groups_list site = groups_list-IsSound u now site
  handle-IsSound by (groups_create b) site = groups_create-IsSound u by now b site
  handle-IsSound by (groups_update name b) site = groups_update-IsSound u by now name b site
  handle-IsSound by (groups_delete name) site = groups_delete-IsSound u by now name site
  handle-IsSound by targets_list site = (targets-IsSound u by now "" blank_body site).2
  handle-IsSound by (targets_create b) site = targets_create-IsSound u by now b site
  handle-IsSound by (targets_update label b) site = (targets-IsSound u by now label b site).0
  handle-IsSound by (targets_delete label) site = (targets-IsSound u by now label blank_body site).1
  handle-IsSound by users_list site = (reads-IsSound u by now none site).0
  handle-IsSound by tabs_list site = (reads-IsSound u by now none site).1
  handle-IsSound by (logs_get lvl component limit) site =
      (logs-IsSound u by now lvl component limit site).0
  handle-IsSound by (logs_set_level lvl) site = (logs-IsSound u by now lvl none none site).1
  handle-IsSound by logs_clear site = (logs-IsSound u by now none none none site).2
  handle-IsSound by settings_get site = (reads-IsSound u by now none site).2
  handle-IsSound by (settings_update enabled) site = (reads-IsSound u by now enabled site).3
  handle-IsSound by tokens_list site = (tokens-IsSound u by now hash "" "" none "" site).2
  handle-IsSound by (tokens_create hex uuid name) site =
      (tokens-IsSound u by now hash hex uuid name "" site).0
  handle-IsSound by (tokens_revoke token_id) site =
      (tokens-IsSound u by now hash "" "" none token_id site).1

  -- A request that the decorator let through, and what it answered.
  abbrev pub Handled : Session → Site → Site → Option Response → Type 0
  Handled s site site' r =
      (resp : Response) × (r ≡ some resp) × IsSound u now site (ok (site', resp))

  admitted-Handled :
      (c : Call) (site site' : Site) (s' : Session) (r : Option Response)
      (checked : Session × Option Denied)
      → admitted u hash now c site checked ≡ ok (site', s', r)
      → ((site' ≡ site) × (r ≡ none)) ⊎ ((checked ≡ (s', none)) × Handled s' site site' r)
  unfolding admitted
  admitted-Handled c site site' s' r (t, some denied) h =
      let ends : ◌≡◌ {A = Site × Session × Option Response} (site, t, none) (site', s', r) = cc h in
      inl (
        sym (ap (λ (e : Site × Session × Option Response). e.0) ends),
        sym (ap (λ (e : Site × Session × Option Response). e.2) ends),
      )
  admitted-Handled c site site' s' r (t, none) h =
      let (done, last, first) =
        steps_of_ok (handle u hash now (default t.user "") c site)
          (λ done. ok (done.0, t, some done.1)) h in
      let ends : ◌≡◌ {A = Site × Session × Option Response} (done.0, t, some done.1)
          (site', s', r) =
        cc last in
      let after : done.0 ≡ site' = ap (λ (e : Site × Session × Option Response). e.0) ends in
      let same : t ≡ s' = ap (λ (e : Site × Session × Option Response). e.1) ends in
      let sound = rw first at (handle-IsSound (default t.user "") c site) in
      inr (
        ap (λ s. (s, none)) same,
        (done.1, sym (ap (λ (e : Site × Session × Option Response). e.2) ends), rw (← after) sound),
      )

  -- Unless the user of the session is an administrator in users.json at that moment, a request to
  -- the admin API is answered by the decorator and changes no store, no setting and no log entry.
  -- Otherwise an error leaves them all as they were too, but for the log where the targets cannot be
  -- read: it may take the one error entry of that. No other answer holds the bearer token of a target
  -- or the hash of an API token. The user has an entry in users.json.
  pub request-Handled :
      (path user : String) (users : Dict StoredUser) (e : StoredUser) (s s' : Session) (c : Call)
      (site site' : Site) (r : Option Response)
      → (user == "") ≡ false
      → load_users site.app.users_file ≡ ok users
      → s.user ≡ some user
      → get user users ≡ some e
      → request u hash now path s c site ≡ ok (site', s', r)
      → ((site' ≡ site) × (r ≡ none)) ⊎ ((is_admin e.role ≡ true) × Handled s' site site' r)
  unfolding request
  request-Handled path user users e s s' c site site' r filled stored named entry h =
      let (checked, last, first) =
        steps_of_ok (admin_required site.app path s) (admitted u hash now c site) h in
      elim (admitted-Handled c site site' s' r checked last) [
        | inl refused ↦ inl refused
        | inr (through, handled) ↦ inr (
          (admin_required-stored site.app path user filled users stored s s' e named entry
              (first ∙ ap ok through)).1,
          handled,
        )
      ]
