-- ===== src/Groups/Store.antt =====
-- Creating, reading, listing and deleting groups, and the invariant of the store.
use t_log.Shared.{
  true, false, none, some, Option-cases, List, [], ◌∷◌, String, ◌==◌, eq_iff, eq_refl, ◌≡◌, ◌≢◌,
  refl, Bool-cases, value_error, ok, err, arith, All, keep-All, inl, inr, ◌⊎◌,
}
use t_log.Shared.Text.{strip}
use t_log.Shared.Dict.{Dict, get, put, remove, has, get-put, get-remove}
use t_log.Groups.{
  StoredGroup, Group, Groups, Fields, group_to_dict, load, save, shown, get_group, stored,
  update_group, create_group, delete_group, known_only, load-save,
}

abbrev pub as_group : String → Fields → Group
as_group name f = record {
  name = name;
  members = f.members;
  ad_groups = f.ad_groups;
  allowed_tabs = f.allowed_tabs;
  adom_restrict = f.adom_restrict;
  allowed_adoms = f.allowed_adoms;
}

-- What `create_group` and `update_group` have to do when they answer True: the group reads back with
-- the given fields, and every other group reads back as before.
pub record Written (s : Groups) (name : String) (f : Fields) (s' : Groups) : Type 0 where
  pub self : get_group s' name ≡ ok (some (as_group name f))
  pub others : (other : String) → name ≢ other → get_group s' other ≡ get_group s other

module _ (s : Groups) (name : String) (f : Fields) (groups : Dict StoredGroup)
    (loaded : load s ≡ ok groups) where
  put-Written : Written s name f (save s (put name (stored f) groups))
  unfolding get_group shown stored group_to_dict
  put-Written = record {
    self = rw load-save (simp (get-put, eq_refl));
    others = λ other ne. rw (load-save, loaded) (simp get-put (ground (arith, eq_iff name other)));
  }

-- Creating a group under a name that is empty once stripped raises and changes nothing; an existing
-- name is refused and changes nothing; any other name, stripped, is stored with the given fields.
pub create_group_lem :
    (s : Groups) (raw : String) (f : Fields) (groups : Dict StoredGroup)
    → load s ≡ ok groups
    → ((strip raw ≡ "") × (create_group s raw f ≡ err (value_error "Group name cannot be empty.")))
      ⊎ ((has (strip raw) groups ≡ true) × (create_group s raw f ≡ ok (s, false)))
      ⊎ ((s' : Groups) × (create_group s raw f ≡ ok (s', true)) × Written s (strip raw) f s')
unfolding create_group
create_group_lem s raw f groups loaded = elim (Bool-cases (strip raw == "")) [
  | inl e ↦ inl ((eq_iff _ _).0 e, rw e)
  | inr e ↦ elim (Bool-cases (has (strip raw) groups)) [
    | inl old ↦ inr (inl (old, rw (e, loaded, old)))
    | inr new ↦ inr (inr (_, rw (e, loaded, new), put-Written s (strip raw) f groups loaded))
  ]
]

-- Updating answers False and changes nothing where the group does not exist; otherwise the group
-- has the given fields with its tabs cut down to the registered ones (all of them while no tab is
-- registered), and every other group is as before.
pub update_group_lem :
    (s : Groups) (name : String) (f : Fields) (groups : Dict StoredGroup)
    → load s ≡ ok groups
    → ((has name groups ≡ false) × (update_group s name f ≡ ok (s, false)))
      ⊎ ((s' : Groups) × (update_group s name f ≡ ok (s', true))
          × Written s name (record f { allowed_tabs = known_only s.known_tabs f.allowed_tabs }) s')
unfolding update_group
update_group_lem s name f groups loaded = elim (Bool-cases (has name groups)) [
  | inl old ↦ inr (_, rw (loaded, old), put-Written s name _ groups loaded)
  | inr new ↦ inl (new, rw (loaded, new))
]

-- Deleting answers False and changes nothing where the group does not exist; otherwise the group is
-- gone and every other group is as before.
pub delete_group_lem :
    (s : Groups) (name : String) (groups : Dict StoredGroup)
    → load s ≡ ok groups
    → ((has name groups ≡ false) × (delete_group s name ≡ ok (s, false)))
      ⊎ ((s' : Groups) × (delete_group s name ≡ ok (s', true))
          × (get_group s' name ≡ ok none)
          × ((other : String) → name ≢ other → get_group s' other ≡ get_group s other))
unfolding delete_group get_group shown
delete_group_lem s name groups loaded = elim (Bool-cases (has name groups)) [
  | inl old ↦ inr (
    save s (remove name groups),
    rw (loaded, old),
    rw load-save (simp (get-remove, eq_refl)),
    λ other ne. rw (load-save, loaded) (simp get-remove (ground (arith, eq_iff name other))),
  )
  | inr new ↦ inl (new, rw (loaded, new))
]

-- With tabs registered, an update leaves only registered tabs in the group.
pub known_only-All :
    (known : Dict String) (tabs : List String)
    → known ≢ []
    → All (λ t. has t known ≡ true) (known_only known tabs)
unfolding known_only
known_only-All [] tabs h = absurd (h refl)
known_only-All (k ∷ known) tabs h = keep-All (λ t. has t (k ∷ known)) tabs

-- A group that reads back stands in the file.
pub get_group-has :
    (s : Groups) (name : String) (g : Group) (groups : Dict StoredGroup)
    → load s ≡ ok groups
    → get_group s name ≡ ok (some g)
    → has name groups ≡ true
unfolding get_group shown
get_group-has s name g groups loaded h = elim (Option-cases (get name groups)) [
  | inl gone ↦ absurd (cc (rw (loaded, gone) at h))
  | inr (stored, found) ↦ rw found
]
