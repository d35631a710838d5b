-- ===== src/Admin/Stores/Invariant.antt =====
-- The invariant under the handlers around targets, logs, settings and tokens.
use t_log.Shared.{
  missing, malformed, contents, Bool, true, false, Option, none, some, [], String, ◌==◌, default,
  Result, ok, err, ◌≡◌, refl, value_error, key_error, json_error, Bool-cases, inl, inr, length, ◌≤◌,
}
use t_log.Shared.Text.{Unicode, strip}
use t_log.Shared.Int.{ℤ}
use t_log.Users.{list_users}
use t_log.Targets.{load_error, log_load, TargetsFile, create_target}
use t_log.Tokens.{revoke_token}
use t_log.AppLog.{Log, set_log_level, max_entries}
use t_log.AppLog.Ring.{logging, setting, clearing, length-apply}
use t_log.Admin.{Site, TargetBody, input_of}
use t_log.Admin.Invariant.{IsValid, Keeps, bind-Keeps, noted-IsValid}
use t_log.Admin.Stores.{
  api_users_list, api_tabs_list, api_faz_targets_list, api_settings_get, api_tokens_list,
  api_logs_get, api_faz_targets_create, api_faz_targets_update, api_faz_targets_delete,
  api_logs_set_level, api_logs_clear, api_settings_update, api_tokens_create, api_tokens_revoke,
  loaded, created_target, updated_target, deleted_target, level_set,
}

module _ (u : Unicode) (by now : String) where
  log_load-fits :
      (f : TargetsFile) (log : Log)
      → length log.buffer ≤ max_entries
      → length (log_load u now f log).buffer ≤ max_entries
  unfolding log_load
  log_load-fits missing log v = v
  log_load-fits (contents targets) log v = v
  log_load-fits malformed log v = length-apply u (logging "ERROR" (load_error now)) log v

  loaded-IsValid : (site : Site) → IsValid site → IsValid (loaded u by now site)
  unfolding loaded
  loaded-IsValid site v = record {
    groups = v.groups;
    log = log_load-fits site.targets site.log v.log;
  }

  pub targets_list-Keeps :
      (site : Site) → IsValid site → IsValid (api_faz_targets_list u by now site).0
  unfolding api_faz_targets_list
  targets_list-Keeps site v = loaded-IsValid site v

  target-Keeps :
      (label : String) (site : Site) (r : TargetsFile × Bool)
      → IsValid site
      → Keeps (ok (created_target u by now label site r))
        × Keeps (ok (updated_target u by now label site r))
        × Keeps (ok (deleted_target u by now label site r))
  unfolding created_target updated_target deleted_target
  target-Keeps label site (f, false) v = (v, v, v)
  target-Keeps label site (f, true) v =
      let kept : IsValid (record site { targets = f }) = record {
        groups = v.groups;
        log = v.log;
      } in
      (
        loaded-IsValid _ (noted-IsValid u by now "FAZ target created" _ _ kept),
        loaded-IsValid _ (noted-IsValid u by now "FAZ target updated" _ _ kept),
        noted-IsValid u by now "FAZ target deleted" _ _ kept,
      )

  pub targets_create-Keeps :
      (b : TargetBody) (site : Site) → IsValid site → Keeps (api_faz_targets_create u by now b site)
  unfolding api_faz_targets_create
  targets_create-Keeps b site v = elim (Bool-cases (strip (default b.label "") == "")) [
    | inl empty ↦ rw empty v
    | inr given ↦ rw given (
        bind-Keeps (create_target site.targets _ (input_of b)) _
          (λ r e. (target-Keeps _ _ r (loaded-IsValid site v)).0))
  ]

  pub targets-Keeps :
      (label : String) (b : TargetBody) (site : Site)
      → IsValid site
      → IsValid (api_faz_targets_update u by now label b site).0
        × IsValid (api_faz_targets_delete u by now label site).0
  unfolding api_faz_targets_update api_faz_targets_delete
  targets-Keeps label b site v = (
    (target-Keeps label _ _ (loaded-IsValid site v)).1,
    (target-Keeps label _ _ (loaded-IsValid site v)).2,
  )

  level_set-Keeps :
      (name : String) (site : Site) (r : Result Log)
      → IsValid site
      → ((l : Log) → r ≡ ok l → length l.buffer ≤ max_entries)
      → Keeps (level_set u by now name site r)
  unfolding level_set
  level_set-Keeps name site (err (value_error why)) v w = v
  level_set-Keeps name site (err (key_error why)) v w = tt
  level_set-Keeps name site (err json_error) v w = tt
  level_set-Keeps name site (ok l) v w =
      noted-IsValid u by now "Log level changed" _ _ (record { groups = v.groups; log = w l refl })

  pub logs_set_level-Keeps :
      (lvl : Option String) (site : Site)
      → IsValid site
      → Keeps (api_logs_set_level u by now lvl site)
  unfolding api_logs_set_level
  logs_set_level-Keeps lvl site v =
      let name = u.upper (default lvl "") in
      level_set-Keeps name site (set_log_level u name site.log) v
        (λ l e. (rw e at (length-apply u (setting name) site.log v.log)))

  pub logs_clear-Keeps : (site : Site) → IsValid site → IsValid (api_logs_clear u by now site).0
  unfolding api_logs_clear
  logs_clear-Keeps site v =
      noted-IsValid u by now "Log buffer cleared" [] _
        (record { groups = v.groups; log = length-apply u clearing site.log v.log })

  pub settings_update-Keeps :
      (enabled : Option Bool) (site : Site)
      → IsValid site
      → IsValid (api_settings_update u by now enabled site).0
  unfolding api_settings_update
  settings_update-Keeps none site v = noted-IsValid u by now "Settings updated" [] site v
  settings_update-Keeps (some b) site v =
      noted-IsValid u by now "Settings updated" [] _ (record { groups = v.groups; log = v.log })

  pub tokens-Keeps :
      (hash : String → String) (hex uuid : String) (name : Option String) (token_id : String)
      (site : Site)
      → IsValid site
      → IsValid (api_tokens_create u by now hash hex uuid name site).0
        × IsValid (api_tokens_revoke u by now token_id site).0
  unfolding api_tokens_create api_tokens_revoke
  tokens-Keeps hash hex uuid name token_id site v = (
    elim (Bool-cases (strip (default name "") == "")) [
      | inl empty ↦ rw empty v
      | inr given ↦ rw given (
          noted-IsValid u by now "API token created" _ _
            (record { groups = v.groups; log = v.log }))
    ],
    elim (Bool-cases (revoke_token token_id site.tokens).1) [
      | inl found ↦ rw found (
          noted-IsValid u by now "API token revoked" _ _
            (record { groups = v.groups; log = v.log }))
      | inr absent ↦ rw absent v
    ],
  )

pub users_list-Keeps : (site : Site) → IsValid site → Keeps (api_users_list site)
unfolding api_users_list
users_list-Keeps site v = bind-Keeps (list_users site.app.users_file) _ (λ listed e. v)

-- What only reads leaves the site as it is.
pub reads_same :
    (u : Unicode) (by now : String) (lvl component : Option String) (limit : Option ℤ) (site : Site)
    → ((api_tabs_list site).0 ≡ site)
      × ((api_settings_get site).0 ≡ site)
      × ((api_tokens_list site).0 ≡ site)
      × ((api_logs_get u by now lvl component limit site).0 ≡ site)
unfolding api_tabs_list api_settings_get api_tokens_list api_logs_get
reads_same u by now lvl component limit site = (refl, refl, refl, refl)
