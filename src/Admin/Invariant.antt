-- ===== src/Admin/Invariant.antt =====
-- The invariant of what the admin API writes, handler by handler: groups.json and the log.
use t_log.Shared.{
  ℕ, ◌≤◌, Bool, true, false, Option, none, some, String, ◌==◌, ◌≡◌, refl, default, length, Result,
  ok, err, ◌>>=◌, value_error, key_error, json_error, Bool-cases, inl, inr,
}
use t_log.Shared.Text.{Unicode, strip}
use t_log.Shared.Dict.{Dict}
use t_log.Groups.{Group, Groups, update_group, delete_group, get_group, list_groups}
use t_log.Groups.Invariant as GroupsInvariant
use t_log.AppLog.{max_entries}
use t_log.AppLog.Ring.{logging, length-apply}
use t_log.Admin.{
  Site, Response, GroupBody, fields_or, fields_of, no_fields, noted, with_groups, group_changed,
  created_group, api_groups_create, updated_group, update_existing, api_groups_update,
  deleted_group, api_groups_delete, api_groups_list,
}

-- The content of groups.json is in good order, and the buffer of the log within its bound.
pub record IsValid (site : Site) : Type 0 where
  pub groups : GroupsInvariant.IsValid site.app.groups
  pub log : length site.log.buffer ≤ max_entries

-- A handler that raises leaves no new state.
abbrev pub Keeps : Result (Site × Response) → Type 0
Keeps (ok (site, r)) = IsValid site
Keeps (err e) = Unit

pub bind-Keeps :
    {A : Type 0} (m : Result A) (k : A → Result (Site × Response))
    → ((a : A) → m ≡ ok a → Keeps (k a))
    → Keeps (m >>= k)
bind-Keeps (err e) k h = tt
bind-Keeps (ok a) k h = h a refl

module _ (u : Unicode) (by now : String) where
  pub noted-IsValid :
      (message : String) (extra : Dict String) (site : Site)
      → IsValid site
      → IsValid (noted u by now message extra site)
  unfolding noted
  noted-IsValid message extra site v = record {
    groups = v.groups;
    log = length-apply u (logging "INFO" _) site.log v.log;
  }

  group_changed-Keeps :
      (message : String) (status : ℕ) (name : String) (site : Site) (g : Groups)
      → IsValid site
      → GroupsInvariant.IsValid g
      → Keeps (group_changed u by now message status name site g)
  unfolding group_changed with_groups
  group_changed-Keeps message status name site g v w =
      bind-Keeps (get_group g name) _
        (λ shown e. noted-IsValid message _ _ (record { groups = w; log = v.log }))

  created_group-Keeps :
      (name : String) (site : Site) (r : Result (Groups × Bool))
      → IsValid site
      → GroupsInvariant.IsValid (GroupsInvariant.after site.app.groups r)
      → Keeps (created_group u by now name site r)
  unfolding created_group
  created_group-Keeps name site (err (value_error why)) v w = v
  created_group-Keeps name site (err (key_error why)) v w = tt
  created_group-Keeps name site (err json_error) v w = tt
  created_group-Keeps name site (ok (g, false)) v w = v
  created_group-Keeps name site (ok (g, true)) v w = group_changed-Keeps _ _ name site g v w

  pub groups_create-Keeps :
      (b : GroupBody) (site : Site) → IsValid site → Keeps (api_groups_create u by now b site)
  unfolding api_groups_create GroupsInvariant.apply
  groups_create-Keeps b site v = elim (Bool-cases (strip (default b.name "") == "")) [
    | inl empty ↦ rw empty v
    | inr given ↦ rw given (
        created_group-Keeps _ site _ v (
          GroupsInvariant.apply-IsValid site.app.groups v.groups
            (GroupsInvariant.create (strip (default b.name "")) (fields_or no_fields b))))
  ]

  updated_group-Keeps :
      (name : String) (site : Site) (r : Groups × Bool)
      → IsValid site
      → GroupsInvariant.IsValid r.0
      → Keeps (updated_group u by now name site r)
  unfolding updated_group
  updated_group-Keeps name site (g, false) v w = v
  updated_group-Keeps name site (g, true) v w = group_changed-Keeps _ _ name site g v w

  update_existing-Keeps :
      (name : String) (b : GroupBody) (site : Site) (o : Option Group)
      → IsValid site
      → Keeps (update_existing u by now name b site o)
  unfolding update_existing GroupsInvariant.apply
  update_existing-Keeps name b site none v = v
  update_existing-Keeps name b site (some g) v =
      let fields = fields_or (fields_of g) b in
      let kept =
        GroupsInvariant.apply-IsValid site.app.groups v.groups
          (GroupsInvariant.update name fields) in
      bind-Keeps (update_group site.app.groups name fields) _
        (λ r e. updated_group-Keeps name site r v (rw e at kept))

  pub groups_update-Keeps :
      (name : String) (b : GroupBody) (site : Site)
      → IsValid site
      → Keeps (api_groups_update u by now name b site)
  unfolding api_groups_update
  groups_update-Keeps name b site v =
      bind-Keeps (get_group site.app.groups name) _ (λ o e. update_existing-Keeps name b site o v)

  deleted_group-Keeps :
      (name : String) (site : Site) (r : Groups × Bool)
      → IsValid site
      → GroupsInvariant.IsValid r.0
      → Keeps (deleted_group u by now name site r)
  unfolding deleted_group with_groups
  deleted_group-Keeps name site (g, false) v w = v
  deleted_group-Keeps name site (g, true) v w =
      noted-IsValid "Group deleted" _ _ (record { groups = w; log = v.log })

  pub groups_delete-Keeps :
      (name : String) (site : Site) → IsValid site → Keeps (api_groups_delete u by now name site)
  unfolding api_groups_delete GroupsInvariant.apply
  groups_delete-Keeps name site v =
      let kept =
        GroupsInvariant.apply-IsValid site.app.groups v.groups (GroupsInvariant.delete name) in
      bind-Keeps (delete_group site.app.groups name) _
        (λ r e. deleted_group-Keeps name site r v (rw e at kept))

pub groups_list-Keeps : (site : Site) → IsValid site → Keeps (api_groups_list site)
unfolding api_groups_list
groups_list-Keeps site v = bind-Keeps (list_groups site.app.groups) _ (λ listed e. v)
