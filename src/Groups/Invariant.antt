-- ===== src/Groups/Invariant.antt =====
-- The invariant of groups.json, over any sequence of the operations of app/groups.py.
use t_log.Shared.{
  Bool, false, Option, none, some, List, [], ◌∷◌, String, ◌==◌, eq_iff, ◌≡◌, ◌≢◌, refl, Bool-cases,
  Result, Result-cases, ok, err, ◌>>=◌, arith, inl, inr, All, All-keep,
}
use t_log.Shared.Text.{strip, strip_idem}
use t_log.Shared.Dict.{Dict, put, remove, has, IsUnique, put-IsUnique, remove-IsUnique, put-All}
use t_log.Shared.Sets.{eq_string, add, discard}
use t_log.Groups.{
  StoredGroup, Group, Groups, Fields, load, save, load-save, get_group, create_group, update_group,
  change_members, add_group_member, remove_group_member, delete_group,
}

-- The calls that write, with their arguments.
pub data Call : Type 0 where
  create update : String → Fields → Call
  add_member remove_member : (group username : String) → Call
  delete : String → Call

-- The state that a call leaves: the old one where it raised.
abbrev pub after {ℓ} : {A : Type ℓ} → Groups → Result (Groups × A) → Groups
after s (ok (s', _)) = s'
after s (err _) = s

abbrev pub left : Groups → Result Groups → Groups
left s (ok s') = s'
left s (err _) = s

unfoldable pub apply : Groups → Call → Groups
apply s (create name f) = after s (create_group s name f)
apply s (update name f) = after s (update_group s name f)
apply s (add_member group username) = left s (add_group_member s group username)
apply s (remove_member group username) = left s (remove_group_member s group username)
apply s (delete name) = after s (delete_group s name)

pub apply_all : Groups → List Call → Groups
apply_all s [] = s
apply_all s (c ∷ cs) = apply_all (apply s c) cs

-- A name that `create_group` can store.
abbrev pub IsName : String → Type 0
IsName name = (strip name ≡ name) × (name ≢ "")

-- Each name stands once, and every name is stripped and not empty.
pub record IsWellFormed (groups : Dict StoredGroup) : Type 0 where
  pub unique : IsUnique groups
  pub named : All (λ (e : String × StoredGroup). IsName e.0) groups

-- So it is of the content of the file, if it can be read.
pub record IsValid (s : Groups) : Type 0 where
  pub content : (groups : Dict StoredGroup) → load s ≡ ok groups → IsWellFormed groups

IsValid-save : (s : Groups) (d : Dict StoredGroup) → IsWellFormed d → IsValid (save s d)
IsValid-save s d w = record {
  content = λ groups e. let same : d ≡ groups = cc (load-save s d) in rw (← same) w;
}

put-IsWellFormed :
    (name : String) (g : StoredGroup) (d : Dict StoredGroup)
    → IsWellFormed d
    → (has name d ≡ false → IsName name)
    → IsWellFormed (put name g d)
put-IsWellFormed name g d w h = record {
  unique = put-IsUnique name g d w.unique;
  named = put-All IsName name g d w.named h;
}

remove-IsWellFormed :
    (name : String) (d : Dict StoredGroup) → IsWellFormed d → IsWellFormed (remove name d)
unfolding remove
remove-IsWellFormed name d w = record {
  unique = remove-IsUnique name d w.unique;
  named = All-keep (λ (e : String × StoredGroup). IsName e.0) _ d w.named;
}

ne-empty : (name : String) → (name == "") ≡ false → name ≢ ""
ne-empty name h = ground (arith, eq_iff name "")

left-after : (s : Groups) (r : Result (Groups × Bool)) → left s (r >>= λ (s', _). ok s') ≡ after s r
left-after s (ok (s', b)) = refl
left-after s (err e) = refl

module _ (s : Groups) (v : IsValid s) where
  -- A call that loads the file and then writes it in good order keeps the invariant.
  load-IsValid :
      (k : Dict StoredGroup → Result (Groups × Bool))
      → ((d : Dict StoredGroup) → IsWellFormed d → IsValid (after s (k d)))
      → IsValid (after s (load s >>= k))
  load-IsValid k h = elim (Result-cases (load s)) [
    | inl (d, loaded) ↦ rw loaded (h d (v.content d loaded))
    | inr (x, failed) ↦ rw failed v
  ]

  create-IsValid : (name : String) (f : Fields) → IsValid (after s (create_group s name f))
  unfolding create_group
  create-IsValid name f = elim (Bool-cases (strip name == "")) [
    | inl e ↦ rw e v
    | inr e ↦ rw e (
        load-IsValid _ λ d w. elim (Bool-cases (has (strip name) d)) [
          | inl old ↦ rw old v
          | inr new ↦
              let good =
                put-IsWellFormed (strip name) _ d w (λ _. (strip_idem name, ne-empty _ e)) in
              rw new (IsValid-save s _ good)
        ])
  ]

  update-IsValid : (name : String) (f : Fields) → IsValid (after s (update_group s name f))
  unfolding update_group
  update-IsValid name f = load-IsValid _ λ d w. elim (Bool-cases (has name d)) [
    | inl old ↦ rw old (IsValid-save s _ (put-IsWellFormed name _ d w (λ new. cc (old, new))))
    | inr new ↦ rw new v
  ]

  delete-IsValid : (name : String) → IsValid (after s (delete_group s name))
  unfolding delete_group
  delete-IsValid name = load-IsValid _ λ d w. elim (Bool-cases (has name d)) [
    | inl old ↦ rw old (IsValid-save s _ (remove-IsWellFormed name d w))
    | inr new ↦ rw new v
  ]

  change-IsValid :
      (change : List String → List String) (name : String) (o : Option Group)
      → IsValid (left s (change_members change s name o))
  unfolding change_members
  change-IsValid change name none = v
  change-IsValid change name (some g) = rw left-after (update-IsValid name _)

  member-IsValid :
      (change : List String → List String) (name : String)
      → IsValid (left s (get_group s name >>= change_members change s name))
  member-IsValid change name = elim (Result-cases (get_group s name)) [
    | inl (o, found) ↦ rw found (change-IsValid change name o)
    | inr (x, failed) ↦ rw failed v
  ]

  pub apply-IsValid : (c : Call) → IsValid (apply s c)
  unfolding apply add_group_member remove_group_member
  apply-IsValid (create name f) = create-IsValid name f
  apply-IsValid (update name f) = update-IsValid name f
  apply-IsValid (add_member group username) = member-IsValid (add username) group
  apply-IsValid (remove_member group username) = member-IsValid (discard username) group
  apply-IsValid (delete name) = delete-IsValid name

-- Whatever calls are made, failing ones included, the readable content of groups.json holds each
-- name once, and every name is stripped and not empty.
pub apply_all-IsValid : (s : Groups) (cs : List Call) → IsValid s → IsValid (apply_all s cs)
unfolding apply_all
apply_all-IsValid s [] v = v
apply_all-IsValid s (c ∷ cs) v = apply_all-IsValid (apply s c) cs (apply-IsValid s v c)
