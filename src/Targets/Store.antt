-- ===== src/Targets/Store.antt =====
-- Creating, reading, updating and deleting targets, and the invariant of the list: no label twice.
use t_log.Shared.{
  true, false, not, none, some, List, [], ◌∷◌, ◌++◌, String, ◌==◌, eq_iff, eq_refl, ◌≡◌, ◌≢◌, ◌⊎◌,
  ◌∙◌, any, keep, length, arith, Bool-cases, inl, inr, value_error, ok, err, contents,
  length-keep-eq_iff, any-not-not,
}
use t_log.Shared.Text.{strip}
use t_log.Shared.Dict.{IsUnique}
use t_log.Shared.Sets.{eq_string}
use t_log.Targets.{
  text, Target, TargetsFile, load, list_targets, is_label, get_target, build_entry, Input,
  create_target, updated_entry, update_target, delete_target,
}
use t_log.Targets.Entries.{label-build_entry, flag-build_entry}
use t_log.Targets.Lookup.{
  load-IsLoaded, load-contents, with_default_flag, is_label_of_get, find-snoc_self, find-snoc_other,
  load-snoc, IsLoaded-keep, find-keep_self, find-keep_ne, replace_lem,
}

-- Creating a target under a label that is empty once stripped raises; an existing label is refused,
-- both without a change; any other label, stripped, reads back as the built entry, and every other
-- label reads back as before. The SNMP overrides are a dictionary: no key stands twice.
pub create_target_lem :
    (f : TargetsFile) (raw : String) (i : Input)
    → IsUnique i.snmp_overrides
    → ((strip raw ≡ "")
        × (create_target f raw i ≡ err (value_error "Target label cannot be empty.")))
      ⊎ ((any (is_label (strip raw)) (list_targets f) ≡ true)
          × (create_target f raw i ≡ ok (f, false)))
      ⊎ ((f' : TargetsFile) × (create_target f raw i ≡ ok (f', true))
          × (get_target f' (strip raw)
              ≡ some (
                  build_entry
                    (strip raw)
                    i.host
                    i.adom
                    (text i.token)
                    i.snmp_overrides
                    i.threat_poll_enabled))
          × ((l : String) → strip raw ≢ l → get_target f' l ≡ get_target f l))
unfolding create_target get_target list_targets
create_target_lem f raw i unique = elim (Bool-cases (strip raw == "")) [
  | inl e ↦ inl ((eq_iff _ _).0 e, rw e)
  | inr e ↦ elim (Bool-cases (any (is_label (strip raw)) (load f))) [
    | inl old ↦ inr (inl (old, rw (e, old)))
    | inr new ↦ inr (
        inr (
          contents (load f ++ entry ∷ []),
          rw (e, new),
          rw loaded (find-snoc_self _ entry (load f) new (ours (strip raw) ∙ eq_refl (strip raw))),
          λ l ne.
              rw loaded
                (find-snoc_other l entry (load f) (ours l ∙ ground (arith, eq_iff (strip raw) l))),
        ))
  ]
]
  where
    entry : Target
    entry =
        build_entry (strip raw) i.host i.adom (text i.token) i.snmp_overrides i.threat_poll_enabled

    ours : (l : String) → is_label l entry ≡ (strip raw == l)
    ours l = is_label_of_get l (strip raw) entry (label-build_entry _ _ _ _ _ _ unique)

    loaded : load (contents (load f ++ entry ∷ [])) ≡ load f ++ entry ∷ []
    loaded =
        load-snoc entry (load f) (load-IsLoaded f)
          (with_default_flag entry i.threat_poll_enabled (flag-build_entry _ _ _ _ _ _ unique))

-- Updating answers False and changes nothing where no target has the label; otherwise the label's
-- first entry is replaced by its update, every other label reads back as before, and the number of
-- targets stays. The SNMP overrides are a dictionary: no key stands twice.
pub update_target_lem :
    (f : TargetsFile) (label : String) (i : Input)
    → IsUnique i.snmp_overrides
    → ((any (is_label label) (list_targets f) ≡ false) × (update_target f label i ≡ (f, false)))
      ⊎ ((t : Target) × (f' : TargetsFile) × (get_target f label ≡ some t)
          × (update_target f label i ≡ (f', true))
          × (get_target f' label ≡ some (updated_entry label i t))
          × ((l : String) → label ≢ l → get_target f' l ≡ get_target f l)
          × (length (list_targets f') ≡ length (list_targets f)))
unfolding update_target get_target list_targets
update_target_lem f label i unique = elim (replace_lem label i unique (load f)) [
  | inl (absent, stays) ↦ inl (absent, rw (stays, update_target))
  | inr (t, us, done, r) ↦
      let same : load (contents us) ≡ us = load-contents us (r.loaded (load-IsLoaded f)) in
      inr (
        t,
        contents us,
        r.was,
        rw (done, update_target),
        rw same r.now,
        λ l ne. rw same (r.others l ne),
        rw same r.size,
      )
]

-- Deleting answers False and changes nothing where no target has the label; otherwise the label
-- reads back as missing and every other label reads back as before.
pub delete_target_lem :
    (f : TargetsFile) (label : String)
    → ((any (is_label label) (list_targets f) ≡ false) × (delete_target f label ≡ (f, false)))
      ⊎ ((f' : TargetsFile) × (delete_target f label ≡ (f', true))
          × (get_target f' label ≡ none)
          × ((l : String) → label ≢ l → get_target f' l ≡ get_target f l))
unfolding delete_target get_target list_targets
delete_target_lem f label = elim (Bool-cases (any (is_label label) (load f))) [
  | inl here ↦ inr (
    contents rest,
    ground (arith, length-keep-eq_iff (λ t. not (is_label label t)) (load f), same, here),
    rw loaded (find-keep_self label (load f)),
    λ l ne. rw loaded (find-keep_ne label l (load f) ne),
  )
  | inr gone ↦
      inl (
        gone,
        ground (arith, length-keep-eq_iff (λ t. not (is_label label t)) (load f), same, gone),
      )
]
  where
    rest : List Target
    rest = keep (λ t. not (is_label label t)) (load f)

    same : any (λ t. not (not (is_label label t))) (load f) ≡ any (is_label label) (load f)
    same = any-not-not (is_label label) (load f)

    loaded : load (contents rest) ≡ rest
    loaded = load-contents rest (IsLoaded-keep _ (load f) (load-IsLoaded f))
