-- ===== src/Summary/Figures.antt =====
-- How the figures of the executive summary go together.
use t_log.Shared.{
  ℕ, suc, ◌≤◌, ◌⊎◌, Option, none, some, List, [], ◌∷◌, String, ◌≡◌, refl, ap, ◌∙◌, length,
  length-keep-le, All, arith, Bool-cases, inl, inr,
}
use t_log.Shared.Int.{ℤ, ◌≤ℤ◌, leb_ℤ}
use t_log.Shared.Text.{Unicode}
use t_log.Tokens.{SettingsFile, TokensFile, Refused, gate}
use t_log.FazHealth as Health
use t_log.FazHealth.Cards.{length-get_all_cached}
use t_log.Summary.{Config, Infra, Report, later_of}
use t_log.Summary.Route.{
  World, Response, refused, ok, unless_refused, infra_of, parse_disk_used_pct, build_infra_list,
  max_disk, summary_report, summary, executive_summary,
}

-- `m` is the greatest of the shares that the entries have, and there is none where no entry has one.
abbrev pub ShareLe : Option ℤ → Option ℤ → Type 0
ShareLe none m = Unit
ShareLe (some p) none = ⊥
ShareLe (some p) (some m) = p ≤ℤ m

abbrev pub IsShared : Option ℤ → List Infra → Type 0
IsShared none entries = Unit
IsShared (some m) [] = ⊥
IsShared (some m) (i ∷ entries) = (i.disk_used_pct ≡ some m) ⊎ IsShared (some m) entries

abbrev pub IsGreatest : Option ℤ → List Infra → Type 0
IsGreatest m entries = All (λ (i : Infra). ShareLe i.disk_used_pct m) entries × IsShared m entries

abbrev pub Consistent : List Health.Target → Response → Type 0
Consistent targets (refused error) = Unit
Consistent targets (ok r) =
    (length r.infra ≡ length targets)
    × (r.faz_targets_total ≡ length targets)
    × (r.faz_targets_healthy ≤ r.faz_targets_total)
    × IsGreatest r.faz_disk_used_pct r.infra

later : ℤ → Option ℤ → Option ℤ
later p m = later_of leb_ℤ p m

ShareLe-later : (q : Option ℤ) (p : ℤ) (m : Option ℤ) → ShareLe q m → ShareLe q (later p m)
unfolding later
ShareLe-later none p m h = tt
ShareLe-later (some q) p none h = absurd h
ShareLe-later (some q) p (some m) h = elim (Bool-cases (leb_ℤ m p)) [
  | inl e ↦ rw e (ground (arith, e, h))
  | inr e ↦ rw e h
]

later-ShareLe : (p : ℤ) (m : Option ℤ) → ShareLe (some p) (later p m)
unfolding later
later-ShareLe p none = ground arith
later-ShareLe p (some m) = elim (Bool-cases (leb_ℤ m p)) [
  | inl e ↦ rw e (ground arith)
  | inr e ↦ rw e (ground (arith, e))
]

All-later :
    (p : ℤ) (m : Option ℤ) (entries : List Infra)
    → All (λ (i : Infra). ShareLe i.disk_used_pct m) entries
    → All (λ (i : Infra). ShareLe i.disk_used_pct (later p m)) entries
All-later p m [] h = tt
All-later p m (i ∷ entries) (h, hs) =
    (ShareLe-later i.disk_used_pct p m h, All-later p m entries hs)

later-IsGreatest :
    (i : Infra) (p : ℤ) (m : Option ℤ) (entries : List Infra)
    → i.disk_used_pct ≡ some p
    → IsGreatest m entries
    → IsGreatest (later p m) (i ∷ entries)
unfolding later
later-IsGreatest i p none entries e (h, k) =
    ((rw e (later-ShareLe p none), All-later p none entries h), inl e)
later-IsGreatest i p (some m) entries e (h, k) = (
  (rw e (later-ShareLe p (some m)), All-later p (some m) entries h),
  elim (Bool-cases (leb_ℤ m p)) [ inl above ↦ rw above (inl e) | inr below ↦ rw below (inr k) ],
)

module _ (usage : String → Option (ℕ × ℕ)) (percent : ℕ → ℕ → ℤ) where
  none-IsGreatest :
      (i : Infra) (m : Option ℤ) (entries : List Infra)
      → i.disk_used_pct ≡ none
      → IsGreatest m entries
      → IsGreatest m (i ∷ entries)
  none-IsGreatest i none entries e (h, k) = ((rw e tt, h), tt)
  none-IsGreatest i (some m) entries e (h, k) = ((rw e tt, h), inr k)

  pick :
      (i : Infra) (o : Option ℤ) (m : Option ℤ) (entries : List Infra)
      → i.disk_used_pct ≡ o
      → IsGreatest m entries
      → IsGreatest (elim o [ none ↦ m | some p ↦ later_of leb_ℤ p m ]) (i ∷ entries)
  unfolding later
  pick i none m entries e h = none-IsGreatest i m entries e h
  pick i (some p) m entries e h = later-IsGreatest i p m entries e h

  max_disk-IsGreatest :
      (cards : List Health.Card)
      → IsGreatest (max_disk usage percent cards) (build_infra_list usage percent cards)
  unfolding max_disk build_infra_list infra_of
  max_disk-IsGreatest [] = (tt, tt)
  max_disk-IsGreatest (t ∷ cards) =
      pick (infra_of usage percent t) (parse_disk_used_pct usage percent t.disk_used)
        (max_disk usage percent cards) _ refl (max_disk-IsGreatest cards)

  length-build_infra_list :
      (cards : List Health.Card) → length (build_infra_list usage percent cards) ≡ length cards
  unfolding build_infra_list
  length-build_infra_list [] = refl
  length-build_infra_list (t ∷ cards) = ap suc (length-build_infra_list cards)

  unless_refused-Consistent :
      (targets : List Health.Target) (refusal : Option Refused) (w : World) (x : World × Report)
      → Consistent targets (ok x.1)
      → Consistent targets (unless_refused refusal w x).1
  unfolding unless_refused
  unless_refused-Consistent targets none w x h = h
  unless_refused-Consistent targets (some error) w x h = tt

  -- An executive summary that is answered has one entry of "infra" for each configured target, which
  -- is their total, and at most as many are healthy. Its share of a used disk is the greatest one of
  -- the entries, absent exactly where no entry has one. This holds in any state of the caches.
  pub executive_summary-Consistent :
      (hash : String → String) (u : Unicode) (settings : SettingsFile) (tokens : TokensFile)
      (auth : String) (config : Config) (targets : List Health.Target) (w : World)
      → Consistent targets
          (executive_summary usage percent hash u settings tokens auth config targets w).1
  unfolding executive_summary summary summary_report
  executive_summary-Consistent hash u settings tokens auth config targets w =
      let count = length-get_all_cached targets w.health in
      let cards = (Health.get_all_cached targets w.health).1 in
      unless_refused-Consistent targets (gate hash u settings tokens auth) w _ (
        length-build_infra_list cards ∙ count,
        count,
        length-keep-le _ cards,
        max_disk-IsGreatest cards,
      )
