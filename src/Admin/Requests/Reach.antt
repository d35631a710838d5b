-- ===== src/Admin/Requests/Reach.antt =====
-- What holds of the server after any run of requests to the admin API.
use t_log.Shared.{Option, none, some, String, ◌≡◌, ap, default, ok, steps_of_ok}
use t_log.Shared.Text.{Unicode}
use t_log.Sessions.{Session, Denied, admin_required}
use t_log.Admin.{Site, Response}
use t_log.Admin.Invariant.{
  IsValid, Keeps, groups_create-Keeps, groups_update-Keeps, groups_delete-Keeps, groups_list-Keeps,
}
use t_log.Admin.Stores.Invariant.{
  targets_list-Keeps, targets_create-Keeps, targets-Keeps, logs_set_level-Keeps, logs_clear-Keeps,
  settings_update-Keeps, tokens-Keeps, users_list-Keeps, reads_same,
}
use t_log.Admin.Requests.{
  Call, groups_list, targets_list, users_list, tabs_list, settings_get, tokens_list, logs_clear,
  groups_create, groups_update, groups_delete, targets_delete, tokens_revoke, targets_create,
  targets_update, logs_get, logs_set_level, settings_update, tokens_create, handle, admitted,
  request, blank_body,
}

module _ (u : Unicode) (hash : String → String) where
  -- One request, of any session at any time, that was answered.
  pub data Step : Site → Site → Type 0 where
    step :
        (now path : String) (s s' : Session) (c : Call) (r : Option Response) {site site' : Site}
        → request u hash now path s c site ≡ ok (site', s', r)
        → Step site site'

  pub data Reach (start : Site) : Site → Type 0 where
    here : Reach start start
    next : {a b : Site} → Reach start a → Step a b → Reach start b

  module _ (now : String) where
    handle-Keeps :
        (by : String) (c : Call) (site : Site) → IsValid site → Keeps (handle u hash now by c site)
    unfolding handle
    handle-Keeps by groups_list site v = groups_list-Keeps site v
    handle-Keeps by (groups_create b) site v = groups_create-Keeps u by now b site v
    handle-Keeps by (groups_update name b) site v = groups_update-Keeps u by now name b site v
    handle-Keeps by (groups_delete name) site v = groups_delete-Keeps u by now name site v
    handle-Keeps by targets_list site v = targets_list-Keeps u by now site v
    handle-Keeps by (targets_create b) site v = targets_create-Keeps u by now b site v
    handle-Keeps by (targets_update label b) site v = (targets-Keeps u by now label b site v).0
    handle-Keeps by (targets_delete label) site v =
        (targets-Keeps u by now label blank_body site v).1
    handle-Keeps by users_list site v = users_list-Keeps site v
    handle-Keeps by tabs_list site v = rw (reads_same u by now none none none site).0 v
    handle-Keeps by (logs_get lvl component limit) site v =
        rw (reads_same u by now lvl component limit site).3 v
    handle-Keeps by (logs_set_level lvl) site v = logs_set_level-Keeps u by now lvl site v
    handle-Keeps by logs_clear site v = logs_clear-Keeps u by now site v
    handle-Keeps by settings_get site v = rw (reads_same u by now none none none site).1 v
    handle-Keeps by (settings_update enabled) site v = settings_update-Keeps u by now enabled site v
    handle-Keeps by tokens_list site v = rw (reads_same u by now none none none site).2 v
    handle-Keeps by (tokens_create hex uuid name) site v =
        (tokens-Keeps u by now hash hex uuid name "" site v).0
    handle-Keeps by (tokens_revoke token_id) site v =
        (tokens-Keeps u by now hash "" "" none token_id site v).1

    admitted-IsValid :
        (c : Call) (site site' : Site) (s' : Session) (r : Option Response)
        (checked : Session × Option Denied)
        → IsValid site
        → admitted u hash now c site checked ≡ ok (site', s', r)
        → IsValid site'
    unfolding admitted
    admitted-IsValid c site site' s' r (t, some denied) v h =
        let ends : ◌≡◌ {A = Site × Session × Option Response} (site, t, none) (site', s', r) =
          cc h in
        rw (← ap (λ (e : Site × Session × Option Response). e.0) ends) v
    admitted-IsValid c site site' s' r (t, none) v h =
        let (done, last, first) =
          steps_of_ok (handle u hash now (default t.user "") c site)
            (λ done. ok (done.0, t, some done.1)) h in
        let ends : ◌≡◌ {A = Site × Session × Option Response} (done.0, t, some done.1)
            (site', s', r) =
          cc last in
        let kept = rw first at (handle-Keeps (default t.user "") c site v) in
        rw (← ap (λ (e : Site × Session × Option Response). e.0) ends) kept

    request-IsValid :
        (path : String) (s s' : Session) (c : Call) (r : Option Response) (site site' : Site)
        → IsValid site
        → request u hash now path s c site ≡ ok (site', s', r)
        → IsValid site'
    unfolding request
    request-IsValid path s s' c r site site' v h =
        let (checked, last, first) =
          steps_of_ok (admin_required site.app path s) (admitted u hash now c site) h in
        admitted-IsValid c site site' s' r checked v last

  Step-IsValid : {a b : Site} → IsValid a → Step a b → IsValid b
  Step-IsValid v (step now path s s' c r {site} {site'} h) =
      request-IsValid now path s s' c r site site' v h

  -- Where the readable content of groups.json holds each name once, every name is stripped and not
  -- empty, and the log has at most 2000 entries, all of this still holds after any run of requests to
  -- the admin API, of any sessions and with any bodies.
  pub Reach-IsValid : {start site : Site} → IsValid start → Reach start site → IsValid site
  Reach-IsValid v here = v
  Reach-IsValid v (next r st) = Step-IsValid (Reach-IsValid v r) st
