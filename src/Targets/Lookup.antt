-- ===== src/Targets/Lookup.antt =====
-- Lookups of a label in the list of targets, after entries were added, replaced or dropped.
use t_log.Shared.{
  suc, Bool, true, false, not, Option, none, some, List, [], ◌∷◌, ◌++◌, String, ◌==◌, eq_iff,
  eq_refl, ◌≡◌, ◌≢◌, ◌⊎◌, refl, ◌∙◌, ap, if◌then◌else◌, any, keep, map, length, arith, Bool-cases,
  inl, inr, contents,
}
use mathlib.Core.List.{map-append}
use t_log.Shared.Dict.{get, get-put, IsUnique}
use t_log.Shared.Sets.{eq_string}
use t_log.Targets.{
  names, Value, text, flag, null, Target, TargetsFile, with_default, load, is_label, find, Input,
  updated_entry, replace,
}
use t_log.Targets.Entries.{updated_entry-fields}

with_default_idem : (t : Target) → with_default (with_default t) ≡ with_default t
unfolding with_default
with_default_idem t = ground (
  arith,
  get-put "threat_poll_enabled" "threat_poll_enabled" (flag true) t,
  eq_refl "threat_poll_enabled",
)

map-with_default_idem :
    (ts : List Target) → map with_default (map with_default ts) ≡ map with_default ts
map-with_default_idem [] = refl
map-with_default_idem (t ∷ ts) = cc (with_default_idem t, map-with_default_idem ts)

-- What is loaded has its poll flag, so loading again changes nothing.
abbrev pub IsLoaded : List Target → Type 0
IsLoaded ts = map with_default ts ≡ ts

pub load-IsLoaded : (f : TargetsFile) → IsLoaded (load f)
unfolding load
load-IsLoaded f = map-with_default_idem _

pub load-contents : (ts : List Target) → IsLoaded ts → load (contents ts) ≡ ts
unfolding load
load-contents ts h = h

pub with_default_flag :
    (t : Target) (b : Bool) → get "threat_poll_enabled" t ≡ some (flag b) → with_default t ≡ t
unfolding with_default
with_default_flag t b h = rw h

pub is_label_of_get :
    (l label : String) (t : Target)
    → get "label" t ≡ some (text label)
    → is_label l t ≡ (label == l)
is_label_of_get l label t h = ap (names l) h

names_eq : (l m : String) (o : Option Value) → names l o ≡ true → names m o ≡ (l == m)
names_eq l m none h = cc
names_eq l m (some (text s)) h = let same : s ≡ l = (eq_iff s l).0 h in rw same
names_eq l m (some (flag b)) h = cc
names_eq l m (some null) h = cc

is_label_eq : (l m : String) (t : Target) → is_label l t ≡ true → is_label m t ≡ (l == m)
is_label_eq l m t h = names_eq l m (get "label" t) h

pub find-snoc_self :
    (l : String) (e : Target) (ts : List Target)
    → any (is_label l) ts ≡ false
    → is_label l e ≡ true
    → find l (ts ++ e ∷ []) ≡ some e
unfolding find
find-snoc_self l e [] h k = rw k
find-snoc_self l e (t ∷ ts) h k = ground (arith, find-snoc_self l e ts)

pub find-snoc_other :
    (l : String) (e : Target) (ts : List Target)
    → is_label l e ≡ false
    → find l (ts ++ e ∷ []) ≡ find l ts
unfolding find
find-snoc_other l e [] k = rw k
find-snoc_other l e (t ∷ ts) k =
    ap (λ (o : Option Target). if is_label l t then some t else o) (find-snoc_other l e ts k)

pub load-snoc :
    (e : Target) (ts : List Target)
    → IsLoaded ts
    → with_default e ≡ e
    → load (contents (ts ++ e ∷ [])) ≡ ts ++ e ∷ []
load-snoc e ts h k = load-contents (ts ++ e ∷ []) (rw map-append (cc (h, k)))

find-none : (l : String) (ts : List Target) → any (is_label l) ts ≡ false → find l ts ≡ none
unfolding find
find-none l [] h = refl
find-none l (t ∷ ts) h = ground (arith, find-none l ts)

pub IsLoaded-keep : (p : Target → Bool) (ts : List Target) → IsLoaded ts → IsLoaded (keep p ts)
IsLoaded-keep p [] h = refl
IsLoaded-keep p (t ∷ ts) h =
    let same : with_default t ≡ t = cc h in
    let rest : IsLoaded ts = cc h in
    elim (Bool-cases (p t)) [
      | inl e ↦ rw e (cc (same, IsLoaded-keep p ts rest))
      | inr e ↦ rw e (IsLoaded-keep p ts rest)
    ]

module _ (label : String) where
  pub find-keep_self :
      (ts : List Target) → find label (keep (λ t. not (is_label label t)) ts) ≡ none
  unfolding find
  find-keep_self [] = refl
  find-keep_self (t ∷ ts) = elim (Bool-cases (is_label label t)) [
    | inl e ↦ rw e (find-keep_self ts)
    | inr e ↦ rw e (rw e (find-keep_self ts))
  ]

  pub find-keep_ne :
      (l : String) (ts : List Target)
      → label ≢ l
      → find l (keep (λ t. not (is_label label t)) ts) ≡ find l ts
  unfolding find
  find-keep_ne l [] ne = refl
  find-keep_ne l (t ∷ ts) ne = elim (Bool-cases (is_label label t)) [
    | inl e ↦
        let other : is_label l t ≡ false =
          is_label_eq label l t e ∙ ground (arith, eq_iff label l) in
        rw (e, other) (find-keep_ne l ts ne)
    | inr e ↦
        rw e (ap (λ (o : Option Target). if is_label l t then some t else o) (find-keep_ne l ts ne))
  ]

  module _ (i : Input) (unique : IsUnique i.snmp_overrides) where
    is_label-updated_entry :
        (l : String) (t : Target) → is_label l (updated_entry label i t) ≡ (label == l)
    is_label-updated_entry l t = is_label_of_get l label _ (updated_entry-fields label i t unique).0

    with_default-updated_entry :
        (t : Target) → with_default (updated_entry label i t) ≡ updated_entry label i t
    with_default-updated_entry t = with_default_flag _ _ (updated_entry-fields label i t unique).4

    -- `us` is `ts` with the first entry of the label, `t`, replaced by its update.
    pub record Replaced (ts us : List Target) (t : Target) : Type 0 where
      pub was : find label ts ≡ some t
      pub now : find label us ≡ some (updated_entry label i t)
      pub others : (l : String) → label ≢ l → find l us ≡ find l ts
      pub size : length us ≡ length ts
      pub loaded : IsLoaded ts → IsLoaded us

    pub replace_lem :
        (ts : List Target)
        → ((any (is_label label) ts ≡ false) × (replace label i ts ≡ none))
          ⊎ ((t : Target) × (us : List Target) × (replace label i ts ≡ some us) × Replaced ts us t)
    unfolding replace find
    replace_lem [] = inl (refl, refl)
    replace_lem (t ∷ ts) = elim (Bool-cases (is_label label t)) [
      | inl e ↦ inr (
        t,
        updated_entry label i t ∷ ts,
        rw e,
        record {
          was = rw e;
          now = rw (is_label-updated_entry label t, eq_refl label);
          others = λ l ne.
              let absent : (label == l) ≡ false = ground (arith, eq_iff label l) in
              rw (is_label-updated_entry l t, absent, is_label_eq label l t e, absent);
          size = refl;
          loaded = λ h. cc (with_default-updated_entry t, h);
        },
      )
      | inr e ↦ elim (replace_lem ts) [
        | inl (absent, stays) ↦ inl (rw e absent, rw (e, stays))
        | inr (u, us, done, r) ↦ inr (
          u,
          t ∷ us,
          rw (e, done),
          record {
            was = rw e r.was;
            now = rw e r.now;
            others = λ l ne.
                ap (λ (o : Option Target). if is_label l t then some t else o) (r.others l ne);
            size = ap suc r.size;
            loaded = λ h. let same : IsLoaded ts = cc h in cc (h, r.loaded same);
          },
        )
      ]
    ]
