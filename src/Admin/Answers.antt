-- ===== src/Admin/Answers.antt =====
-- What the admin API answers: no secret, and an error only where nothing changed.
use t_log.Shared.{
  ℕ, default, Bool, true, false, Option, none, some, String, ◌==◌, ◌≡◌, refl, All, Result, ok, err,
  ◌>>=◌, malformed, ◌⊎◌, value_error, key_error, json_error, Bool-cases, inl, inr,
}
use t_log.Shared.Text.{Unicode, strip}
use t_log.Shared.Dict.{has}
use t_log.Groups.{Group, Groups, update_group, delete_group, get_group, list_groups}
use t_log.Targets.{Target, log_load}
use t_log.Tokens.{Token}
use t_log.Admin.{
  Site, Payload, Response, json, failed, groups, group, targets, target, users, tabs, logs, level,
  deleted, revoked, cleared, setting, tokens, new_token, GroupBody, fields_or, fields_of,
  api_groups_list, api_groups_create, created_group, group_changed, api_groups_update,
  api_groups_delete, updated_group, update_existing, deleted_group,
}

-- A target without its bearer token, and a stored token without its hash.
abbrev pub HidesTarget : Target → Type 0
HidesTarget t = has "token" t ≡ false

abbrev pub HidesToken : Token → Type 0
HidesToken t = t.token_hash ≡ none

abbrev pub HidesSecrets : Payload → Type 0
HidesSecrets (targets ts) = All HidesTarget ts
HidesSecrets (target none) = Unit
HidesSecrets (target (some t)) = HidesTarget t
HidesSecrets (tokens ts) = All HidesToken ts
HidesSecrets (new_token raw t) = HidesToken t
HidesSecrets (groups gs) = Unit
HidesSecrets (group g) = Unit
HidesSecrets (users us) = Unit
HidesSecrets (tabs ts) = Unit
HidesSecrets (logs current ls count es) = Unit
HidesSecrets (level l) = Unit
HidesSecrets (deleted name) = Unit
HidesSecrets (revoked name) = Unit
HidesSecrets cleared = Unit
HidesSecrets (setting b) = Unit

-- Nothing was changed, but for the log where the targets cannot be read: it takes the error of that.
abbrev pub Unchanged : Unicode → String → Site → Site → Type 0
Unchanged u now site site' =
    (site' ≡ site)
    ⊎ ((site.targets ≡ malformed)
        × (site' ≡ record site { log = log_load u now malformed site.log }))

-- An error changes nothing, and no other answer holds a secret.
abbrev pub IsSound : Unicode → String → Site → Result (Site × Response) → Type 0
IsSound u now site (ok (site', failed status why)) = Unchanged u now site site'
IsSound u now site (ok (site', json status p)) = HidesSecrets p
IsSound u now site (err e) = Unit

pub bind-IsSound :
    (u : Unicode) (now : String) {A : Type 0} (site : Site) (m : Result A)
    (k : A → Result (Site × Response))
    → ((a : A) → IsSound u now site (k a))
    → IsSound u now site (m >>= k)
bind-IsSound u now site (err e) k h = tt
bind-IsSound u now site (ok a) k h = h a

module _ (u : Unicode) (by now : String) where
  group_changed-IsSound :
      (message : String) (status : ℕ) (name : String) (site : Site) (g : Groups)
      → IsSound u now site (group_changed u by now message status name site g)
  unfolding group_changed
  group_changed-IsSound message status name site g =
      bind-IsSound u now site (get_group g name) _ (λ shown. tt)

  created_group-IsSound :
      (name : String) (site : Site) (r : Result (Groups × Bool))
      → IsSound u now site (created_group u by now name site r)
  unfolding created_group
  created_group-IsSound name site (err (value_error why)) = inl refl
  created_group-IsSound name site (err (key_error why)) = tt
  created_group-IsSound name site (err json_error) = tt
  created_group-IsSound name site (ok (g, false)) = inl refl
  created_group-IsSound name site (ok (g, true)) = group_changed-IsSound _ _ name site g

  updated_group-IsSound :
      (name : String) (site : Site) (r : Groups × Bool)
      → IsSound u now site (updated_group u by now name site r)
  unfolding updated_group
  updated_group-IsSound name site (g, false) = inl refl
  updated_group-IsSound name site (g, true) = group_changed-IsSound _ _ name site g

  update_existing-IsSound :
      (name : String) (b : GroupBody) (site : Site) (o : Option Group)
      → IsSound u now site (update_existing u by now name b site o)
  unfolding update_existing
  update_existing-IsSound name b site none = inl refl
  update_existing-IsSound name b site (some g) =
      bind-IsSound u now site (update_group site.app.groups name (fields_or (fields_of g) b)) _
        (updated_group-IsSound name site)

  deleted_group-IsSound :
      (name : String) (site : Site) (r : Groups × Bool)
      → IsSound u now site (deleted_group u by now name site r)
  unfolding deleted_group
  deleted_group-IsSound name site (g, false) = inl refl
  deleted_group-IsSound name site (g, true) = tt

  pub groups_create-IsSound :
      (b : GroupBody) (site : Site) → IsSound u now site (api_groups_create u by now b site)
  unfolding api_groups_create
  groups_create-IsSound b site = elim (Bool-cases (strip (default b.name "") == "")) [
    | inl empty ↦ rw empty (inl refl)
    | inr given ↦ rw given (created_group-IsSound _ site _)
  ]

  pub groups_update-IsSound :
      (name : String) (b : GroupBody) (site : Site)
      → IsSound u now site (api_groups_update u by now name b site)
  unfolding api_groups_update
  groups_update-IsSound name b site =
      bind-IsSound u now site (get_group site.app.groups name) _
        (update_existing-IsSound name b site)

  pub groups_delete-IsSound :
      (name : String) (site : Site) → IsSound u now site (api_groups_delete u by now name site)
  unfolding api_groups_delete
  groups_delete-IsSound name site =
      bind-IsSound u now site (delete_group site.app.groups name) _
        (deleted_group-IsSound name site)

pub groups_list-IsSound :
    (u : Unicode) (now : String) (site : Site) → IsSound u now site (api_groups_list site)
unfolding api_groups_list
groups_list-IsSound u now site =
    bind-IsSound u now site (list_groups site.app.groups) _ (λ listed. tt)
