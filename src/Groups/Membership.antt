-- ===== src/Groups/Membership.antt =====
-- What adding and removing a member does to a group, and to nothing else.
use t_log.Shared.{
  not, ◌&&◌, ◌||◌, some, List, [], String, ◌==◌, eq_iff, eq_refl, ◌≡◌, ◌≢◌, refl, ◌∙◌, ap, default,
  ok, arith, load_or_raise,
}
use t_log.Shared.Dict.{Dict, get, put, get-put}
use t_log.Shared.Sets.{
  eq_string, member, add, discard, update, member-add, member-discard, member-update,
}
use t_log.Shared.Sort.{sorted, text_le, any-sorted}
use t_log.Groups.{
  StoredGroup, Group, Groups, group_to_dict, load, save, shown, get_group, stored, known_only,
  update_group, with_members, change_members, add_group_member, remove_group_member,
}

member-sorted : (a : String) (xs : List String) → member a (sorted text_le xs) ≡ member a xs
unfolding member
member-sorted a xs = any-sorted text_le _ xs

-- The group after its members became `members`: the tabs are cut down to the registered ones.
abbrev pub rewritten : Groups → Group → List String → Group
rewritten s g members = record g {
  members = sorted text_le members;
  allowed_tabs = known_only s.known_tabs g.allowed_tabs;
}

module _ (change : List String → List String) (s : Groups) (name : String)
    (groups : Dict StoredGroup) (loaded : load s ≡ ok groups) where
  abbrev changed : StoredGroup → Groups
  changed g =
      let old = group_to_dict name g in
      let f = with_members old (change (update [] old.members)) in
      save s (
        put name (stored (record f { allowed_tabs = known_only s.known_tabs f.allowed_tabs }))
          groups)

  change_members-eq :
      (g : StoredGroup)
      → get name groups ≡ some g
      → change_members change s name (shown name (get name groups)) ≡ ok (changed g)
  unfolding change_members shown update_group
  change_members-eq g found = rw (found, loaded, found)

  get_group-changed_self :
      (g : StoredGroup)
      → get name groups ≡ some g
      → get_group (changed g) name
        ≡ ok (some (rewritten s (group_to_dict name g) (change (update [] (default g.members [])))))
  unfolding get_group load save shown load_or_raise with_members stored group_to_dict
  get_group-changed_self g found = simp (get-put, eq_refl)

  get_group-changed_ne :
      (g : StoredGroup) (other : String)
      → name ≢ other
      → get_group (changed g) other ≡ get_group s other
  unfolding get_group save
  get_group-changed_ne g other ne =
      rw loaded (unfold load load_or_raise in simp get-put (ground (arith, eq_iff name other)))

-- What a change of the members of an existing group has to do: the group has the new members,
-- sorted, and only registered tabs, and its other fields and every other group are as before.
pub record Changes (s : Groups) (name : String) (g : Group) (change : List String → List String)
    (s' : Groups) : Type 0 where
  pub group : get_group s' name ≡ ok (some (rewritten s g (change (update [] g.members))))
  pub others : (other : String) → name ≢ other → get_group s' other ≡ get_group s other
  pub tabs : s'.known_tabs ≡ s.known_tabs

module _ (s : Groups) (name username : String) (groups : Dict StoredGroup) (g : StoredGroup)
    (loaded : load s ≡ ok groups) (found : get name groups ≡ some g) where
  changed-Changes :
      (change : List String → List String)
      → Changes s name (group_to_dict name g) change (changed change s name groups loaded g)
  unfolding group_to_dict
  changed-Changes change = record {
    group = get_group-changed_self change s name groups loaded g found;
    others = get_group-changed_ne change s name groups loaded g;
    tabs = unfold save in refl;
  }

  -- Adding a member to an existing group succeeds. Afterwards exactly the old members and the new
  -- one are members, in sorted order; the tabs are the registered ones among the old tabs; the
  -- other fields and all other groups are unchanged.
  pub add_group_member_lem :
      (s' : Groups) × (add_group_member s name username ≡ ok s')
      × Changes s name (group_to_dict name g) (add username) s'
      × ((v : String)
          → member v (sorted text_le (add username (update [] (default g.members []))))
            ≡ (username == v || member v (default g.members [])))
  unfolding add_group_member get_group member
  add_group_member_lem = (
    changed (add username) s name groups loaded g,
    rw loaded (change_members-eq (add username) s name groups loaded g found),
    changed-Changes (add username),
    λ v.
        member-sorted v _
        ∙ member-add username v _
        ∙ ap (λ b. username == v || b) (member-update v [] (default g.members [])),
  )

  -- Removing a member from an existing group succeeds. Afterwards exactly the other old members
  -- are members, in sorted order; the tabs are the registered ones among the old tabs; the other
  -- fields and all other groups are unchanged.
  pub remove_group_member_lem :
      (s' : Groups) × (remove_group_member s name username ≡ ok s')
      × Changes s name (group_to_dict name g) (discard username) s'
      × ((v : String)
          → member v (sorted text_le (discard username (update [] (default g.members []))))
            ≡ (not (username == v) && member v (default g.members [])))
  unfolding remove_group_member get_group member
  remove_group_member_lem = (
    changed (discard username) s name groups loaded g,
    rw loaded (change_members-eq (discard username) s name groups loaded g found),
    changed-Changes (discard username),
    λ v.
        member-sorted v _
        ∙ member-discard username v _
        ∙ ap (λ b. not (username == v) && b) (member-update v [] (default g.members [])),
  )
