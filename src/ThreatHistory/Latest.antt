-- ===== src/ThreatHistory/Latest.antt =====
-- Which row of the two histories is read back after a cycle has added one and pruned the others.
use t_log.Shared.{
  true, false, some, List, [], ◌∷◌, ◌++◌, String, ◌≡◌, keep, keep-append, All, All-keep, arith,
}
use t_log.Shared.Sort.{sorted, text_le, first, first-sorted-append}
use t_log.ThreatHistory.{Rollup, write_rollup, get_latest_rollup, prune_old_rows}
use t_log.LogHistory as LogHistory

module _ {ℓ} {A : Type ℓ} (stamp : A → String) where
  kept :
      (cutoff : String) (r : A) (rows : List A)
      → text_le cutoff (stamp r) ≡ true
      → keep (λ x. text_le cutoff (stamp x)) (rows ++ r ∷ [])
        ≡ keep (λ x. text_le cutoff (stamp x)) rows ++ r ∷ []
  kept cutoff r rows h =
      ground (arith, keep-append (λ x. text_le cutoff (stamp x)) rows (r ∷ []), h)

  -- A row that is newer than the others and not too old is the first one.
  first-sorted-kept :
      (cutoff : String) (r : A) (rows : List A)
      → All (λ x. text_le (stamp r) (stamp x) ≡ false) rows
      → text_le cutoff (stamp r) ≡ true
      → first (
          sorted
            (λ a b. text_le (stamp b) (stamp a))
            (keep (λ x. text_le cutoff (stamp x)) (rows ++ r ∷ [])))
        ≡ some r
  first-sorted-kept cutoff r rows older young =
      rw (kept cutoff r rows young)
        (first-sorted-append _ r _ (All-keep _ (λ x. text_le cutoff (stamp x)) rows older))

-- No row has the time or a later one.
abbrev pub AllBefore : String → List Rollup → Type 0
AllBefore t rows = All (λ (x : Rollup). text_le t x.collected_at ≡ false) rows

pub get_latest_rollup-prune_old_rows :
    (cutoff : String) (r : Rollup) (rows : List Rollup)
    → AllBefore r.collected_at rows
    → text_le cutoff r.collected_at ≡ true
    → get_latest_rollup (prune_old_rows cutoff (write_rollup r rows)) ≡ some r
unfolding get_latest_rollup prune_old_rows write_rollup
get_latest_rollup-prune_old_rows = first-sorted-kept (λ (x : Rollup). x.collected_at)

abbrev pub LogsBefore : String → List LogHistory.Rollup → Type 0
LogsBefore t rows = All (λ (x : LogHistory.Rollup). text_le t x.collected_at ≡ false) rows

pub log_rollup-prune_old_rows :
    (cutoff : String) (r : LogHistory.Rollup) (rows : List LogHistory.Rollup)
    → LogsBefore r.collected_at rows
    → text_le cutoff r.collected_at ≡ true
    → LogHistory.get_latest_rollup
        (LogHistory.prune_old_rows cutoff (LogHistory.write_rollup r rows))
      ≡ some r
unfolding LogHistory.get_latest_rollup LogHistory.prune_old_rows LogHistory.write_rollup
log_rollup-prune_old_rows = first-sorted-kept (λ (x : LogHistory.Rollup). x.collected_at)
