-- ===== src/Admin/Stores.antt =====
-- The handlers of app/routes/admin_routes.py around targets, logs, settings and tokens, and the lists
-- of users and tabs.
pub mod Answers
pub mod Invariant
use Prim.Native.String.{◌++◌ as append}
use t_log.Shared.{
  ℕ, Bool, true, false, not, Option, none, some, List, [], ◌∷◌, String, ◌==◌, if◌then◌else◌,
  default, keep, map, length, Result, ok, err, ◌>>=◌, value_error,
}
use t_log.Shared.Int.{ℤ}
use t_log.Shared.Text.{Unicode, strip}
use t_log.Shared.Dict.{Dict, keys}
use t_log.Users.{list_users}
use t_log.Targets.{
  Target, TargetsFile, log_load, list_targets, get_target, create_target, update_target,
  delete_target, mask_target,
}
use t_log.Tokens.{
  Token, TokensFile, create_token, list_tokens, revoke_token, get_setting, set_setting,
}
use t_log.AppLog.{Entry, Log, level_rank, set_log_level, clear_log_entries, get_log_entries}
use t_log.Admin.{
  Site, Payload, Response, json, failed, targets, target, users, tabs, logs, level, deleted,
  revoked, cleared, setting, tokens, new_token, TargetBody, input_of, about, noted,
}

-- `_mask_target(get_target(label))`
masked : Option Target → Option Target
masked none = none
masked (some t) = some (mask_target t)

pub api_users_list : Site → Result (Site × Response)
api_users_list site = do listed ← list_users site.app.users_file; ok (site, json 200 (users listed))

-- `registry.known_tabs()` without the tab that comes with the role.
pub api_tabs_list : Site → Site × Response
api_tabs_list site = (
  site,
  json 200 (tabs (keep (λ (t : String × String). not (t.0 == "admin")) site.app.groups.known_tabs)),
)

pub api_settings_get : Site → Site × Response
api_settings_get site =
    (site, json 200 (setting (some (get_setting "external_api_enabled" false site.settings))))

pub api_tokens_list : Site → Site × Response
api_tokens_list site = (site, json 200 (tokens (list_tokens site.tokens)))

-- `request.args.get("level") or None`
or_none : Option String → Option String
or_none none = none
or_none (some s) = if s == "" then none else some s

module _ (u : Unicode) (by now : String) where
  -- The effect of one load of the targets on the log.
  pub loaded : Site → Site
  loaded site = record site { log = log_load u now site.targets site.log }

  pub api_faz_targets_list : Site → Site × Response
  unfolding loaded
  api_faz_targets_list site =
      (loaded site, json 200 (targets (map mask_target (list_targets site.targets))))

  -- `limit` is the number that was read, `none` where `int` raises a ValueError.
  pub api_logs_get : Option String → Option String → Option ℤ → Site → Site × Response
  unfolding or_none
  api_logs_get lvl component limit site =
      let entries =
        get_log_entries u (or_none lvl) (or_none component) (default limit (ℤ.pos 500)) site.log in
      (site, json 200 (logs site.log.current_level (keys level_rank) (length entries) entries))

  -- The targets were loaded, and are loaded again for the answer.
  created_target : String → Site → TargetsFile × Bool → Site × Response
  unfolding masked loaded
  created_target label site (f, false) = (site, failed 409 (about "Target" label "already exists"))
  created_target label site (f, true) = (
    loaded (
        noted u by now "FAZ target created" (("target", label) ∷ []) (record site { targets = f })),
    json 201 (target (masked (get_target f label))),
  )

  pub api_faz_targets_create : TargetBody → Site → Result (Site × Response)
  unfolding created_target loaded
  api_faz_targets_create b site =
      let label = strip (default b.label "") in
      if label == "" then ok (site, failed 400 "label is required") else do
        made ← create_target site.targets label (input_of b)
        ok (created_target label (loaded site) made)

  updated_target : String → Site → TargetsFile × Bool → Site × Response
  unfolding masked loaded
  updated_target label site (f, false) = (site, failed 404 (about "Target" label "not found"))
  updated_target label site (f, true) = (
    loaded (
        noted u by now "FAZ target updated" (("target", label) ∷ []) (record site { targets = f })),
    json 200 (target (masked (get_target f label))),
  )

  pub api_faz_targets_update : String → TargetBody → Site → Site × Response
  unfolding updated_target loaded
  api_faz_targets_update label b site =
      updated_target label (loaded site) (update_target site.targets label (input_of b))

  deleted_target : String → Site → TargetsFile × Bool → Site × Response
  deleted_target label site (f, false) = (site, failed 404 (about "Target" label "not found"))
  deleted_target label site (f, true) = (
    noted u by now "FAZ target deleted" (("target", label) ∷ []) (record site { targets = f }),
    json 200 (deleted label),
  )

  pub api_faz_targets_delete : String → Site → Site × Response
  unfolding deleted_target loaded
  api_faz_targets_delete label site =
      deleted_target label (loaded site) (delete_target site.targets label)

  level_set : String → Site → Result Log → Result (Site × Response)
  level_set name site (err (value_error why)) = ok (site, failed 400 why)
  level_set name site (err e) = err e
  level_set name site (ok l) =
      let site' =
        noted u by now "Log level changed" (("new_level", name) ∷ []) (record site { log = l }) in
      ok (site', json 200 (level site'.log.current_level))

  pub api_logs_set_level : Option String → Site → Result (Site × Response)
  unfolding level_set
  api_logs_set_level lvl site =
      let name = u.upper (default lvl "") in level_set name site (set_log_level u name site.log)

  pub api_logs_clear : Site → Site × Response
  api_logs_clear site = (
    noted u by now "Log buffer cleared" [] (record site { log = clear_log_entries site.log }),
    json 200 cleared,
  )

  -- The answer is the value of the body, as it came.
  pub api_settings_update : Option Bool → Site → Site × Response
  api_settings_update enabled site =
      let changed : Site = elim enabled [
        | none ↦ site
        | some b ↦ record site { settings = set_setting "external_api_enabled" b site.settings }
      ] in
      (noted u by now "Settings updated" [] changed, json 200 (setting enabled))

  pub api_tokens_create :
      (String → String) → String → String → Option String → Site → Site × Response
  api_tokens_create hash hex uuid given site =
      let name = strip (default given "") in
      if name == ""
      then (site, failed 400 "name is required")
      else let (f, (raw, token)) = create_token hash hex uuid name site.tokens in
        (
          noted u by now "API token created" (("token_name", name) ∷ [])
              (record site { tokens = f }),
          json 201 (new_token raw token),
        )

  pub api_tokens_revoke : String → Site → Site × Response
  unfolding about
  api_tokens_revoke token_id site =
      let (f, found) = revoke_token token_id site.tokens in
      if found
      then (
        noted u by now "API token revoked" (("token_id", token_id) ∷ [])
            (record site { tokens = f }),
        json 200 (revoked token_id),
      )
      else (site, failed 404 (about "Token" token_id "not found"))
