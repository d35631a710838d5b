-- ===== src/Admin/Requests.antt =====
-- A request to the admin API of app/routes/admin_routes.py: the decorator and the handler.

pub mod Guarded
pub mod Reach
mod Tests
use t_log.Shared.{Bool, Option, none, some, List, [], ◌∷◌, String, default, Result, ok, err, ◌>>=◌}
use t_log.Shared.Int.{ℤ}
use t_log.Shared.Text.{Unicode}
use t_log.Sessions.{Session, Denied, App, admin_required}
use t_log.Admin.{
  Site, Response, GroupBody, TargetBody, api_groups_list, api_groups_create, api_groups_update,
  api_groups_delete,
}
use t_log.Admin.Stores.{
  api_users_list, api_tabs_list, api_faz_targets_list, api_settings_get, api_tokens_list,
  api_logs_get, api_faz_targets_create, api_faz_targets_update, api_faz_targets_delete,
  api_logs_set_level, api_logs_clear, api_settings_update, api_tokens_create, api_tokens_revoke,
}

-- The routes with what the request gives.
pub data Call : Type 0 where
  groups_list targets_list users_list tabs_list settings_get tokens_list logs_clear : Call
  groups_create : GroupBody → Call
  groups_update : String → GroupBody → Call
  groups_delete targets_delete tokens_revoke : String → Call
  targets_create : TargetBody → Call
  targets_update : String → TargetBody → Call
  logs_get : Option String → Option String → Option ℤ → Call
  logs_set_level : Option String → Call
  settings_update : Option Bool → Call
  tokens_create : String → String → Option String → Call

-- A body without any key.
abbrev pub blank_body : TargetBody
blank_body = record {
  label = none;
  host = none;
  adom = none;
  token = none;
  snmp = [];
  threat_poll_enabled = none;
}

module _ (u : Unicode) (hash : String → String) (now : String) where
  pub handle : String → Call → Site → Result (Site × Response)
  handle by groups_list site = api_groups_list site
  handle by (groups_create b) site = api_groups_create u by now b site
  handle by (groups_update name b) site = api_groups_update u by now name b site
  handle by (groups_delete name) site = api_groups_delete u by now name site
  handle by targets_list site = ok (api_faz_targets_list u by now site)
  handle by (targets_create b) site = api_faz_targets_create u by now b site
  handle by (targets_update label b) site = ok (api_faz_targets_update u by now label b site)
  handle by (targets_delete label) site = ok (api_faz_targets_delete u by now label site)
  handle by users_list site = api_users_list site
  handle by tabs_list site = ok (api_tabs_list site)
  handle by (logs_get lvl component limit) site =
      ok (api_logs_get u by now lvl component limit site)
  handle by (logs_set_level lvl) site = api_logs_set_level u by now lvl site
  handle by logs_clear site = ok (api_logs_clear u by now site)
  handle by settings_get site = ok (api_settings_get site)
  handle by (settings_update enabled) site = ok (api_settings_update u by now enabled site)
  handle by tokens_list site = ok (api_tokens_list site)
  handle by (tokens_create hex uuid name) site =
      ok (api_tokens_create u by now hash hex uuid name site)
  handle by (tokens_revoke token_id) site = ok (api_tokens_revoke u by now token_id site)

  -- The session after the decorator; `none` in place of a response is what it refused.
  admitted : Call → Site → Session × Option Denied → Result (Site × Session × Option Response)
  unfolding handle
  admitted c site (s, some denied) = ok (site, s, none)
  admitted c site (s, none) = do
    (site', r) ← handle (default s.user "") c site
    ok (site', s, some r)

  pub request : String → Session → Call → Site → Result (Site × Session × Option Response)
  unfolding admitted
  request path s c site = admin_required site.app path s >>= admitted c site
