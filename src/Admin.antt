-- ===== src/Admin.antt =====
-- app/routes/admin_routes.py: the handlers of the admin API over the stores behind them. A body is a
-- JSON object with values of the right kind, `none` where a key is missing. What is random in a new
-- token is a part of the request. The page itself and the host metrics are left out.

pub mod Answers
pub mod Stores
pub mod Updates
pub mod Invariant
pub mod Requests
use Prim.Native.String.{◌++◌ as append}
use t_log.Shared.{
  ℕ, Bool, true, false, not, Option, none, some, List, [], ◌∷◌, ◌++◌, String, ◌==◌, if◌then◌else◌,
  default, keep, map, length, Error, Result, ok, err, ◌>>=◌, value_error, key_error, json_error,
}
use t_log.Shared.Int.{ℤ}
use t_log.Shared.Text.{Unicode, strip}
use t_log.Shared.Dict.{Dict, get, keys, pick}
use t_log.Groups.{
  Group, Groups, Fields, list_groups, get_group, create_group, update_group, delete_group,
}
use t_log.Users.{list_users}
use t_log.Sessions.{App}
use t_log.Targets.{
  Value, truthy, Target, TargetsFile, Input, snmp_fields, list_targets, get_target, create_target,
  update_target, delete_target, mask_target,
}
use t_log.Tokens.{
  Token, TokensFile, SettingsFile, create_token, list_tokens, revoke_token, get_setting,
  set_setting,
}
use t_log.AppLog.{
  Entry, Log, level_rank, app_log, set_log_level, clear_log_entries, get_log_entries,
}

-- What the server holds: the accounts and groups of `App`, and the other stores.
pub record Site : Type 0 where
  pub app : App
  pub targets : TargetsFile
  pub tokens : TokensFile
  pub settings : SettingsFile
  pub log : Log

pub data Payload : Type 0 where
  groups : List Group → Payload
  group : Option Group → Payload
  targets : List Target → Payload
  target : Option Target → Payload
  users tabs : List (String × String) → Payload
  logs : String → List String → ℕ → List Entry → Payload
  level deleted revoked : String → Payload
  cleared : Payload
  setting : Option Bool → Payload
  tokens : List Token → Payload
  new_token : String → Token → Payload

pub data Response : Type 0 where
  json : ℕ → Payload → Response
  failed : ℕ → String → Response

pub record GroupBody : Type 0 where
  pub name : Option String
  pub members : Option (List String)
  pub ad_groups : Option (List String)
  pub allowed_tabs : Option (List String)
  pub adom_restrict : Option Bool
  pub allowed_adoms : Option (List String)

-- A group's fields out of the body, with a default for each that is missing.
pub fields_or : Fields → GroupBody → Fields
fields_or old b = record {
  members = default b.members old.members;
  ad_groups = default b.ad_groups old.ad_groups;
  allowed_tabs = default b.allowed_tabs old.allowed_tabs;
  adom_restrict = default b.adom_restrict old.adom_restrict;
  allowed_adoms = default b.allowed_adoms old.allowed_adoms;
}

abbrev pub no_fields : Fields
no_fields = record {
  members = [];
  ad_groups = [];
  allowed_tabs = [];
  adom_restrict = false;
  allowed_adoms = [];
}

abbrev pub fields_of : Group → Fields
fields_of g = record {
  members = g.members;
  ad_groups = g.ad_groups;
  allowed_tabs = g.allowed_tabs;
  adom_restrict = g.adom_restrict;
  allowed_adoms = g.allowed_adoms;
}

-- `{k: data[k] for k in _SNMP_OVERRIDE_FIELDS if data.get(k)}` is taken from the values of `snmp`.
pub record TargetBody : Type 0 where
  pub label : Option String
  pub host : Option String
  pub adom : Option String
  pub token : Option String
  pub snmp : Dict Value
  pub threat_poll_enabled : Option Bool

pub input_of : TargetBody → Input
input_of b = record {
  host = default b.host "";
  adom = default b.adom "root";
  token = default b.token "";
  snmp_overrides = keep (λ (e : String × Value). truthy e.1) (pick snmp_fields b.snmp);
  threat_poll_enabled = default b.threat_poll_enabled true;
}

-- `f"{what} '{name}' {state}"`
pub about : String → String → String → String
about what name rest = append what (append " '" (append name (append "' " rest)))

pub api_groups_list : Site → Result (Site × Response)
api_groups_list site = do listed ← list_groups site.app.groups; ok (site, json 200 (groups listed))

module _ (u : Unicode) (by now : String) where
  -- `app_log("INFO", "admin", message, by=session["user"], **extra)`
  pub noted : String → Dict String → Site → Site
  noted message extra site = record site {
    log =
        app_log u "INFO"
          (record {
            ts = now;
            level = "INFO";
            component = "admin";
            message = message;
            extra = ("by", by) ∷ extra;
          })
          site.log;
  }

  pub with_groups : Site → Groups → Site
  with_groups site g = record site { app = record site.app { groups = g } }

  -- The answer to a change that was made: the group as it reads back.
  group_changed : String → ℕ → String → Site → Groups → Result (Site × Response)
  unfolding noted with_groups
  group_changed message status name site g = do
    shown ← get_group g name
    ok (noted message (("group", name) ∷ []) (with_groups site g), json status (group shown))

  created_group : String → Site → Result (Groups × Bool) → Result (Site × Response)
  unfolding group_changed about
  created_group name site (err (value_error why)) = ok (site, failed 400 why)
  created_group name site (err e) = err e
  created_group name site (ok (g, false)) =
      ok (site, failed 409 (about "Group" name "already exists"))
  created_group name site (ok (g, true)) = group_changed "Group created" 201 name site g

  pub api_groups_create : GroupBody → Site → Result (Site × Response)
  unfolding created_group fields_or
  api_groups_create b site =
      let name = strip (default b.name "") in
      if name == ""
      then ok (site, failed 400 "name is required")
      else created_group name site (create_group site.app.groups name (fields_or no_fields b))

  updated_group : String → Site → Groups × Bool → Result (Site × Response)
  unfolding group_changed about
  updated_group name site (g, false) = ok (site, failed 404 (about "Group" name "not found"))
  updated_group name site (g, true) = group_changed "Group updated" 200 name site g

  update_existing : String → GroupBody → Site → Option Group → Result (Site × Response)
  unfolding updated_group fields_or about
  update_existing name b site none = ok (site, failed 404 (about "Group" name "not found"))
  update_existing name b site (some existing) =
      update_group site.app.groups name (fields_or (fields_of existing) b)
      >>= updated_group name site

  pub api_groups_update : String → GroupBody → Site → Result (Site × Response)
  unfolding update_existing
  api_groups_update name b site = get_group site.app.groups name >>= update_existing name b site

  deleted_group : String → Site → Groups × Bool → Result (Site × Response)
  unfolding noted with_groups about
  deleted_group name site (g, false) = ok (site, failed 404 (about "Group" name "not found"))
  deleted_group name site (g, true) =
      ok
        (noted "Group deleted" (("group", name) ∷ []) (with_groups site g), json 200 (deleted name))

  pub api_groups_delete : String → Site → Result (Site × Response)
  unfolding deleted_group
  api_groups_delete name site = delete_group site.app.groups name >>= deleted_group name site
