-- ===== src/LogSearch/Routes/Offered.antt =====
-- The targets that Log Search offers are those that it will search.
use t_log.Shared.{
  Bool, true, false, not, Option, none, some, List, [], ◌∷◌, String, default, ◌≡◌, refl, ◌∙◌, sym,
  ap, keep, All, Result, ok, err,
}
use t_log.Shared.Dict.{get}
use t_log.Shared.Sets.{eq_string}
use t_log.Groups.Access.{get_allowed_adoms, within}
use t_log.Sessions.{Session, App, check_adom_access}
use t_log.Sessions.Local.{check_adom_access-within}
use t_log.Targets.{Value, text, Target, TargetsFile, list_targets}
use t_log.LogSearch.Routes.{label_in, visible, choices_of, api_targets}

keep-cong {ℓ} :
    {A : Type ℓ} (p q : A → Bool) (xs : List A) → All (λ x. p x ≡ q x) xs → keep p xs ≡ keep q xs
keep-cong p q [] h = refl
keep-cong p q (x ∷ xs) (e, es) = rw (e, keep-cong p q xs es) refl

All-map {ℓ κ μ} :
    {A : Type ℓ} (P : A → Type κ) (Q : A → Type μ) (xs : List A)
    → ((x : A) → P x → Q x)
    → All P xs
    → All Q xs
All-map P Q [] f h = tt
All-map P Q (x ∷ xs) f (p, ps) = (f x p, All-map P Q xs f ps)

keep_all {ℓ} : {A : Type ℓ} (xs : List A) → keep (λ x. true) xs ≡ xs
keep_all [] = refl
keep_all (x ∷ xs) = ap (λ ys. x ∷ ys) (keep_all xs)

not-not : (b : Bool) → not (not b) ≡ b
not-not true = refl
not-not false = refl

-- Every target has a label that is a text.
abbrev pub IsLabelled : List Target → Type 0
IsLabelled ts = All (λ (t : Target). (label : String) × (get "label" t ≡ some (text label))) ts

module _ (p : Target → Bool) where
  -- A test that agrees with the list of ADOMs keeps the visible targets.
  visible-keep :
      (allowed : Option (List String)) (ts : List Target)
      → ((t : Target) (label : String)
          → get "label" t ≡ some (text label)
          → p t ≡ within label allowed)
      → IsLabelled ts
      → visible allowed ts ≡ keep p ts
  unfolding visible label_in within
  visible-keep none ts agree labelled =
      sym (keep_all ts)
      ∙ keep-cong (λ t. true) p ts (All-map _ _ ts (λ t (label, e). sym (agree t label e)) labelled)
  visible-keep (some allowed) ts agree labelled =
      keep-cong (λ (t : Target). label_in allowed (get "label" t)) p ts
        (All-map _ _ ts (λ t (label, e). rw e (sym (agree t label e))) labelled)

module _ (app : App) (path : String) (s : Session) where
  passed : Result Bool → Bool
  passed (ok denied) = not denied
  passed (err e) = false

  passes_label : Option Value → Bool
  unfolding passed
  passes_label (some (text label)) = passed (check_adom_access app path label s)
  passes_label _ = false

  -- A search of the target would pass the ADOM check.
  pub passes : Target → Bool
  unfolding passes_label
  passes t = passes_label (get "label" t)

  module _ (allowed : Option (List String))
      (h : get_allowed_adoms app.groups app.users_file (default s.user "") s.ad_groups s.role
        ≡ ok allowed) where
    passes-within :
        (t : Target) (label : String)
        → get "label" t ≡ some (text label)
        → passes t ≡ within label allowed
    unfolding passes
    passes-within t label e =
        rw e (
          rw (check_adom_access-within app path s label allowed h) (not-not (within label allowed)))

    -- Where every target has a label and the ADOMs of the user can be read, the list that is
    -- offered is exactly the configured targets that pass the ADOM check which `api_search`, the
    -- fields and the devices make.
    pub api_targets-passes :
        (targets : TargetsFile)
        → IsLabelled (list_targets targets)
        → api_targets app targets s ≡ choices_of (keep passes (list_targets targets))
    unfolding api_targets
    api_targets-passes targets labelled =
        rw h (
          ap choices_of (visible-keep passes allowed (list_targets targets) passes-within labelled))
