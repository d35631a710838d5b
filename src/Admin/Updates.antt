-- ===== src/Admin/Updates.antt =====
-- What a change of a group through the admin API does.
use t_log.Shared.{default, some, [], ◌∷◌, String, ◌≡◌, inl, inr, refl, ok}
use t_log.Shared.Text.{Unicode}
use t_log.Shared.Dict.{Dict}
use t_log.Groups.{StoredGroup, Group, Groups, Fields, load, get_group, known_only}
use t_log.Groups.Store.{Written, as_group, update_group_lem, get_group-has}
use t_log.Admin.{
  Site, json, group, GroupBody, fields_or, fields_of, noted, with_groups, api_groups_update,
  update_existing, updated_group, group_changed,
}

module _ (u : Unicode) (by now name : String) (b : GroupBody) (site : Site) where
  -- What a group becomes: each field of the body, or the old one where the body has none, with the
  -- tabs cut down to the registered ones.
  abbrev pub changed : Group → Fields
  changed old = record {
    members = default b.members old.members;
    ad_groups = default b.ad_groups old.ad_groups;
    allowed_tabs = known_only site.app.groups.known_tabs (default b.allowed_tabs old.allowed_tabs);
    adom_restrict = default b.adom_restrict old.adom_restrict;
    allowed_adoms = default b.allowed_adoms old.allowed_adoms;
  }

  -- A PUT on an existing group keeps every field that the body does not give: the group reads back
  -- with the fields of the body and else the old ones, its tabs cut down to the registered ones;
  -- the answer is that group; every other group is as before; and beside the groups only the log may
  -- change, by what `app_log` makes of one entry of the level INFO.
  pub api_groups_update_lem :
      (old : Group) (groups : Dict StoredGroup)
      → load site.app.groups ≡ ok groups
      → get_group site.app.groups name ≡ ok (some old)
      → (g : Groups) × (api_groups_update u by now name b site
          ≡ ok (
            noted u by now "Group updated" (("group", name) ∷ []) (with_groups u by now site g),
            json 200 (group (some (as_group name (changed old)))),
          ))
        × Written site.app.groups name (changed old) g
  unfolding api_groups_update update_existing fields_or
  api_groups_update_lem old groups loaded found =
      elim (update_group_lem site.app.groups name (fields_or (fields_of old) b) groups loaded) [
        | inl (gone, same) ↦
            absurd (cc (gone, get_group-has site.app.groups name old groups loaded found))
        | inr (g, done, written) ↦ (
          g,
          rw (found, done) (unfold updated_group group_changed in rw written.self refl),
          written,
        )
      ]
