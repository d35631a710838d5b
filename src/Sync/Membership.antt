-- ===== src/Sync/Membership.antt =====
-- A push against an abstract view of the groups: who belongs to which group.
use t_log.Shared.{
  Bool, true, false, ◌&&◌, Option, none, some, List, [], String, ◌==◌, eq_iff, eq_refl,
  if◌then◌else◌, ◌≡◌, ◌⊎◌, inl, inr, refl, ◌∙◌, ap, default, Result, ok, arith, Bool-cases,
  Option-cases, ℕ,
}
use t_log.Shared.Text.{starts_with}
use t_log.Shared.Dict.{Dict, get, keys, has-keys}
use t_log.Shared.Sets.{eq_string, member, add, discard, update}
use t_log.Shared.Sort.{sorted, text_le}
use t_log.Shared.Json.{Json, str, bool, dict, fields, Fields}
use t_log.Groups.{StoredGroup, Group, Groups, load, get_group, group_to_dict}
use t_log.Groups.Membership.{Changes, add_group_member_lem, remove_group_member_lem}
use t_log.Groups.Names.{names-list_groups, get_group_of_get}
use t_log.Sso.{Libraries}
use t_log.Sync.{
  Answer, no_content, abort, apply_group_change, group_names, text_of, flag_of, require_scope,
  change_known, push_values, push_body, receive_group_push,
}

members_of : Result (Option Group) → List String
members_of (ok (some g)) = g.members
members_of _ = []

-- The abstract state: whether a group names a user.
unfoldable pub is_member : Groups → String → String → Bool
unfolding members_of
is_member s group username = member username (members_of (get_group s group))

-- The abstract operation: one pair gets the value, and every other pair keeps its own.
abbrev pub SetsMember : Groups → String → String → Bool → Groups → Type 0
SetsMember s group username flag s' =
    (g v : String)
    → is_member s' g v ≡ (if g == group && v == username then flag else is_member s g v)

module _ (s : Groups) (group username : String) (groups : Dict StoredGroup) (g : StoredGroup)
    (loaded : load s ≡ ok groups) (found : get group groups ≡ some g) where
  -- A change of the members of one group, read through the abstract view.
  Changes-SetsMember :
      (flag : Bool) (change : List String → List String) (s' : Groups)
      → Changes s group (group_to_dict group g) change s'
      → ((v : String)
          → member v (sorted text_le (change (update [] (default g.members []))))
            ≡ (if v == username then flag else member v (default g.members [])))
      → SetsMember s group username flag s'
  unfolding is_member
  Changes-SetsMember flag change s' changes inside h v = elim (Bool-cases (h == group)) [
    | inl same ↦
        let e : h ≡ group = (eq_iff h group).0 same in
        rw (e, eq_refl, changes.group, get_group_of_get s group g groups loaded found)
          (unfold group_to_dict in inside v)
    | inr other ↦ rw (other, changes.others h (ground (arith, eq_iff h group))) refl
  ]

  apply-SetsMember :
      (flag : Bool)
      → (s' : Groups) × (apply_group_change s username group flag ≡ ok s')
        × SetsMember s group username flag s'
  unfolding apply_group_change
  apply-SetsMember true =
      let (s', done, changes, inside) =
        add_group_member_lem s group username groups g loaded found in
      (
        s',
        done,
        Changes-SetsMember true (add username) s' changes
            (λ v. inside v ∙ ground (arith, eq_iff v username, eq_iff username v)),
      )
  apply-SetsMember false =
      let (s', done, changes, inside) =
        remove_group_member_lem s group username groups g loaded found in
      (
        s',
        done,
        Changes-SetsMember false (discard username) s' changes
            (λ v. inside v ∙ ground (arith, eq_iff v username, eq_iff username v)),
      )

module _ (lib : Libraries) (blocks : List String) where
  -- What a push did: it was refused and changed nothing, or it was a change of one membership that
  -- a service with the scope asked for.
  abbrev pub Pushed : String → Option Json → Groups → Result (Groups × Answer) → Type 0
  Pushed auth body s outcome =
      ((status : ℕ) × (why : String) × (outcome ≡ ok (s, abort status why)))
      ⊎ ((username : String) × (group : String) × (flag : Bool) × (fs : Fields) × (s' : Groups)
          × (require_scope lib blocks auth "groups_push" ≡ true)
          × (body ≡ some (dict fs))
          × (get "username" (fields fs) ≡ some (str username))
          × (get "group" (fields fs) ≡ some (str group))
          × (get "member" (fields fs) ≡ some (bool flag))
          × (starts_with username "_service:" ≡ false)
          × (outcome ≡ ok (s', no_content))
          × SetsMember s group username flag s')

  -- The three values, read from the body.
  text_of-some : (v : Option Json) (t : String) → text_of v ≡ some t → v ≡ some (str t)
  unfolding text_of
  text_of-some none t h = absurd (cc h)
  text_of-some (some (str s)) t h = elim (Bool-cases (s == "")) [
    | inl empty ↦ absurd (cc (rw empty at h))
    | inr given ↦ ap (λ x. some (str x)) (cc (rw given at h))
  ]
  text_of-some (some other) t h = absurd (cc h)

  flag_of-some : (v : Option Json) (b : Bool) → flag_of v ≡ some b → v ≡ some (bool b)
  unfolding flag_of
  flag_of-some none b h = absurd (cc h)
  flag_of-some (some (bool c)) b h = ap (λ x. some (bool x)) (cc h)
  flag_of-some (some other) b h = absurd (cc h)

  module _ (s : Groups) (groups : Dict StoredGroup) (loaded : load s ≡ ok groups) where
    abbrev Done : Option String → Option String → Option Bool → Result (Groups × Answer) → Type 0
    Done username group flag outcome =
        ((status : ℕ) × (why : String) × (outcome ≡ ok (s, abort status why)))
        ⊎ ((name : String) × (g : String) × (b : Bool) × (s' : Groups) × (username ≡ some name)
            × (group ≡ some g)
            × (flag ≡ some b)
            × (starts_with name "_service:" ≡ false)
            × (outcome ≡ ok (s', no_content))
            × SetsMember s g name b s')

    stored_of_known :
        (g : String) → member g (keys groups) ≡ true → (e : StoredGroup) × (get g groups ≡ some e)
    unfolding member
    stored_of_known g known = elim (Option-cases (get g groups)) [
      | inl gone ↦ absurd (cc (rw gone at (has-keys g groups ∙ known)))
      | inr (e, found) ↦ (e, found)
    ]

    change_known-Done :
        (name g : String) (b : Bool)
        → starts_with name "_service:" ≡ false
        → Done (some name) (some g) (some b) (change_known lib blocks s name g b (keys groups))
    unfolding change_known
    change_known-Done name g b user = elim (Bool-cases (member g (keys groups))) [
      | inr unknown ↦ rw unknown (inl (400, _, refl))
      | inl known ↦
          let (e, found) = stored_of_known g known in
          let (s', done, sets) = apply-SetsMember s g name groups e loaded found b in
          rw known (inr (name, g, b, s', refl, refl, refl, user, rw done refl, sets))
    ]

    push_values-Done :
        (username group : Option String) (flag : Option Bool)
        → Done username group flag (push_values lib blocks s username group flag)
    unfolding push_values group_names
    push_values-Done none group flag = inl (400, _, refl)
    push_values-Done (some name) none flag = inl (400, _, refl)
    push_values-Done (some name) (some g) none = inl (400, _, refl)
    push_values-Done (some name) (some g) (some b) =
        elim (Bool-cases (starts_with name "_service:")) [
          | inl sentinel ↦ rw sentinel (inl (400, _, refl))
          | inr user ↦
              rw (user, names-list_groups s groups loaded) (change_known-Done name g b user)
        ]

    push_body-Pushed :
        (auth : String) (body : Option Json)
        → require_scope lib blocks auth "groups_push" ≡ true
        → Pushed auth body s (push_body lib blocks s body)
    unfolding push_body
    push_body-Pushed auth none scoped = inl (400, _, refl)
    push_body-Pushed auth (some (dict fs)) scoped =
        elim (push_values-Done (text_of (get "username" (fields fs)))
          (text_of (get "group" (fields fs))) (flag_of (get "member" (fields fs)))) [
            | inl refused ↦ inl refused
            | inr (name, g, b, s', n, gr, fl, user, done, sets) ↦ inr (
              name,
              g,
              b,
              fs,
              s',
              scoped,
              refl,
              text_of-some _ name n,
              text_of-some _ g gr,
              flag_of-some _ b fl,
              user,
              done,
              sets,
            )
          ]
    push_body-Pushed auth (some other) scoped = inl (400, _, refl)

    scoped-Pushed :
        (auth : String) (body : Option Json) (b : Bool)
        → require_scope lib blocks auth "groups_push" ≡ b
        → Pushed auth body s (if b then push_body lib blocks s body else ok (s, abort 403 ""))
    scoped-Pushed auth body true scoped = push_body-Pushed auth body scoped
    scoped-Pushed auth body false other = inl (403, _, refl)

    -- A push is refused with an error and changes nothing, or it refines one step on the relation
    -- between groups and users: a service with the scope "groups_push" asked, the pair of the group
    -- and the user of the body gets the value of the body, every other pair keeps its own, and the
    -- user is no service sentinel. The groups can be read.
    pub receive_group_push-Pushed :
        (auth : String) (body : Option Json)
        → Pushed auth body s (receive_group_push lib blocks auth body s)
    unfolding receive_group_push
    receive_group_push-Pushed auth body =
        scoped-Pushed auth body (require_scope lib blocks auth "groups_push") refl
