-- ===== src/Collector/Workers.antt =====
-- What the workers answer, in any order of polls and requests.
use t_log.Shared.{ℕ, true, false, none, some, ◌≡◌, ◌⊎◌, refl, ap, ◌∙◌, nat_eq, Bool-cases, inl, inr}
use t_log.Shared.Sets.{nat_eq_iff}
use t_log.Collector.{
  Poller, Split, view, set_worker, serve, cycle, Run, here, polled, served, IsStart,
}

module _ {S C I : Type 0} (p : Poller S C I) where
  -- The snapshot in the store is the cache of the collector.
  abbrev pub IsStored : Split S C → Type 0
  IsStored s = (p.stored s.own ≡ some (p.cache s.own)) × (p.is_filled (p.cache s.own) ≡ true)

  abbrev Consistent : Split S C → Type 0
  Consistent s = ((p.is_filled (p.cache s.own) ≡ false) × (p.stored s.own ≡ none)) ⊎ IsStored s

  cycle-Consistent : (i : I) (s : Split S C) → Consistent s → Consistent (cycle p i s)
  unfolding cycle
  cycle-Consistent i s h = elim (p.poll_publishes i s.own) [
    | inl same ↦ rw same h
    | inr new ↦ inr new
  ]

  Run-Consistent : (s t : Split S C) → Run p s t → Consistent s → Consistent t
  unfolding serve
  Run-Consistent s _ here h = h
  Run-Consistent s _ (polled r i) h = cycle-Consistent i _ (Run-Consistent s _ r h)
  Run-Consistent s _ (served r i) h = Run-Consistent s _ r h

  filled_view :
      (i : ℕ) (s : Split S C)
      → p.is_filled (s.workers i) ≡ true
      → p.get_cached (view p i s) ≡ (view p i s, s.workers i)
  filled_view i s h =
      let same = p.cache_with (s.workers i) s.own in
      p.get_own (view p i s) (ap p.is_filled same ∙ h) ∙ ap (λ c. (view p i s, c)) same

  set_same : (i : ℕ) (workers : ℕ → C) (c d : C) → c ≡ d → set_worker p i c workers i ≡ d
  set_same i workers c d h = rw ((nat_eq_iff i i).1 refl) h

  -- A worker whose cache is filled answers with it and keeps it.
  serve-filled :
      (i : ℕ) (s : Split S C)
      → p.is_filled (s.workers i) ≡ true
      → ((serve p i s).1 ≡ s.workers i) × ((serve p i s).0.workers i ≡ s.workers i)
  unfolding serve
  serve-filled i s h =
      rw (filled_view i s h) (refl, set_same i s.workers _ _ (p.cache_with (s.workers i) s.own))

  serve-other :
      (i j : ℕ) (s : Split S C)
      → p.is_filled (s.workers i) ≡ true
      → (serve p j s).0.workers i ≡ s.workers i
  unfolding serve
  serve-other i j s h = elim (Bool-cases (nat_eq j i)) [
    | inl e ↦ let same : j ≡ i = (nat_eq_iff j i).0 e in rw same (serve-filled i s h).1
    | inr e ↦ rw e refl
  ]

  -- Once a worker has a snapshot, no poll and no request ever changes it.
  Run-workers :
      (i : ℕ) (s t : Split S C)
      → Run p s t
      → p.is_filled (s.workers i) ≡ true
      → t.workers i ≡ s.workers i
  unfolding cycle
  Run-workers i s _ here h = refl
  Run-workers i s _ (polled r k) h = Run-workers i s _ r h
  Run-workers i s _ (served {s = t} r j) h =
      let kept = Run-workers i s t r h in serve-other i j t (ap p.is_filled kept ∙ h) ∙ kept

  -- The first request of a worker reads the snapshot that the collector wrote last.
  serve-first :
      (i : ℕ) (s : Split S C)
      → IsStored s
      → p.is_filled (s.workers i) ≡ false
      → ((serve p i s).1 ≡ p.cache s.own) × ((serve p i s).0.workers i ≡ p.cache s.own)
  unfolding serve
  serve-first i s (kept, filled) h =
      let same = p.cache_with (s.workers i) s.own in
      let at_store = p.stored_with (s.workers i) s.own ∙ kept in
      let seen = p.get_stored (view p i s) (p.cache s.own) (ap p.is_filled same ∙ h) at_store in
      rw seen (refl, set_same i s.workers _ _ (p.cache_with (p.cache s.own) (view p i s)))

  -- A worker that answers its first request after a successful poll answers what the collector has at
  -- that moment; from then on it gives this one answer, whatever the collector polls later.
  pub first_answer-kept :
      (i : ℕ) (start s t : Split S C)
      → IsStart p start
      → Run p start s
      → p.is_filled (p.cache s.own) ≡ true
      → p.is_filled (s.workers i) ≡ false
      → Run p (serve p i s).0 t
      → ((serve p i s).1 ≡ p.cache s.own) × ((serve p i t).1 ≡ p.cache s.own)
  first_answer-kept i start s t (unfilled, nothing, empty) reached filled first later =
      let stored : IsStored s = elim (Run-Consistent start s reached (inl (unfilled, nothing))) [
        | inl (none_yet, _) ↦ absurd (cc)
        | inr h ↦ h
      ] in
      let (answer, cache) = serve-first i s stored first in
      let has = ap p.is_filled cache ∙ filled in
      let same = Run-workers i (serve p i s).0 t later has in
      (answer, (serve-filled i t (ap p.is_filled same ∙ has)).0 ∙ same ∙ cache)
