-- ===== src/Admin/Stores/Answers.antt =====
-- The answers of the handlers around targets, logs, settings and tokens.
use t_log.Shared.{
  missing, malformed, contents, ◌≡◌, Bool, true, false, Option, none, some, List, [], ◌∷◌, String,
  ◌==◌, refl, map, All, Result, ok, err, value_error, key_error, json_error, Bool-cases, inl, inr,
  default,
}
use t_log.Shared.Text.{Unicode, strip}
use t_log.Shared.Int.{ℤ}
use t_log.Users.{list_users}
use t_log.Targets.{
  log_load, Target, TargetsFile, mask_target, list_targets, get_target, create_target,
}
use t_log.Targets.Entries.{mask_target_lem}
use t_log.Tokens.{revoke_token}
use t_log.Tokens.Gate.{create_token-hash, list_tokens-hash}
use t_log.AppLog.{Log}
use t_log.Admin.{Site, target, TargetBody, input_of}
use t_log.Admin.Answers.{HidesTarget, HidesSecrets, Unchanged, IsSound, bind-IsSound}
use t_log.Admin.Stores.{
  masked, api_users_list, api_tabs_list, api_faz_targets_list, api_settings_get, api_tokens_list,
  api_logs_get, api_faz_targets_create, api_faz_targets_update, api_faz_targets_delete,
  api_logs_set_level, api_logs_clear, api_settings_update, api_tokens_create, api_tokens_revoke,
  loaded, created_target, updated_target, deleted_target, level_set,
}

HidesTarget-mask : (t : Target) → HidesTarget (mask_target t)
HidesTarget-mask t = rw (mask_target_lem t).0 refl

All-mask : (ts : List Target) → All HidesTarget (map mask_target ts)
All-mask [] = tt
All-mask (t ∷ ts) = (HidesTarget-mask t, All-mask ts)

target-masked : (o : Option Target) → HidesSecrets (target (masked o))
unfolding masked
target-masked none = tt
target-masked (some t) = HidesTarget-mask t

module _ (u : Unicode) (by now : String) where
  Unchanged-loaded :
      (site : Site) (f : TargetsFile)
      → site.targets ≡ f
      → Unchanged u now site (loaded u by now site)
  unfolding loaded log_load
  Unchanged-loaded site missing e = inl (rw e refl)
  Unchanged-loaded site malformed e = inr (e, rw e refl)
  Unchanged-loaded site (contents targets) e = inl (rw e refl)

  created_target-IsSound :
      (label : String) (site : Site) (r : TargetsFile × Bool)
      → IsSound u now site (ok (created_target u by now label (loaded u by now site) r))
  unfolding created_target
  created_target-IsSound label site (f, false) = Unchanged-loaded site site.targets refl
  created_target-IsSound label site (f, true) = target-masked (get_target f label)

  updated_target-IsSound :
      (label : String) (site : Site) (r : TargetsFile × Bool)
      → IsSound u now site (ok (updated_target u by now label (loaded u by now site) r))
  unfolding updated_target
  updated_target-IsSound label site (f, false) = Unchanged-loaded site site.targets refl
  updated_target-IsSound label site (f, true) = target-masked (get_target f label)

  deleted_target-IsSound :
      (label : String) (site : Site) (r : TargetsFile × Bool)
      → IsSound u now site (ok (deleted_target u by now label (loaded u by now site) r))
  unfolding deleted_target
  deleted_target-IsSound label site (f, false) = Unchanged-loaded site site.targets refl
  deleted_target-IsSound label site (f, true) = tt

  pub targets_create-IsSound :
      (b : TargetBody) (site : Site) → IsSound u now site (api_faz_targets_create u by now b site)
  unfolding api_faz_targets_create
  targets_create-IsSound b site = elim (Bool-cases (strip (default b.label "") == "")) [
    | inl empty ↦ rw empty (inl refl)
    | inr given ↦ rw given (
        bind-IsSound u now site (create_target site.targets _ (input_of b)) _
          (created_target-IsSound _ site))
  ]

  pub targets-IsSound :
      (label : String) (b : TargetBody) (site : Site)
      → IsSound u now site (ok (api_faz_targets_update u by now label b site))
        × IsSound u now site (ok (api_faz_targets_delete u by now label site))
        × IsSound u now site (ok (api_faz_targets_list u by now site))
  unfolding api_faz_targets_update api_faz_targets_delete api_faz_targets_list
  targets-IsSound label b site = (
    updated_target-IsSound label site _,
    deleted_target-IsSound label site _,
    All-mask (list_targets site.targets),
  )

  level_set-IsSound :
      (name : String) (site : Site) (r : Result Log)
      → IsSound u now site (level_set u by now name site r)
  unfolding level_set
  level_set-IsSound name site (err (value_error why)) = inl refl
  level_set-IsSound name site (err (key_error why)) = tt
  level_set-IsSound name site (err json_error) = tt
  level_set-IsSound name site (ok l) = tt

  pub logs-IsSound :
      (lvl component : Option String) (limit : Option ℤ) (site : Site)
      → IsSound u now site (ok (api_logs_get u by now lvl component limit site))
        × IsSound u now site (api_logs_set_level u by now lvl site)
        × IsSound u now site (ok (api_logs_clear u by now site))
  unfolding api_logs_get api_logs_set_level api_logs_clear
  logs-IsSound lvl component limit site = (tt, level_set-IsSound _ site _, tt)

  pub reads-IsSound :
      (enabled : Option Bool) (site : Site)
      → IsSound u now site (api_users_list site)
        × IsSound u now site (ok (api_tabs_list site))
        × IsSound u now site (ok (api_settings_get site))
        × IsSound u now site (ok (api_settings_update u by now enabled site))
  unfolding api_users_list api_tabs_list api_settings_get api_settings_update
  reads-IsSound enabled site =
      (bind-IsSound u now site (list_users site.app.users_file) _ (λ l. tt), tt, tt, tt)

  pub tokens-IsSound :
      (hash : String → String) (hex uuid : String) (name : Option String) (token_id : String)
      (site : Site)
      → IsSound u now site (ok (api_tokens_create u by now hash hex uuid name site))
        × IsSound u now site (ok (api_tokens_revoke u by now token_id site))
        × IsSound u now site (ok (api_tokens_list site))
  unfolding api_tokens_create api_tokens_revoke api_tokens_list
  tokens-IsSound hash hex uuid name token_id site = (
    elim (Bool-cases (strip (default name "") == "")) [
      | inl empty ↦ rw empty (inl refl)
      | inr given ↦ rw given (create_token-hash hash hex uuid _ site.tokens)
    ],
    elim (Bool-cases (revoke_token token_id site.tokens).1) [
      | inl found ↦ rw found tt
      | inr absent ↦ rw absent (inl refl)
    ],
    list_tokens-hash site.tokens,
  )
