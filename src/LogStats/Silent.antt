-- ===== src/LogStats/Silent.antt =====
-- The split into logging and silent devices, and the details of the silent ones.
use t_log.Shared.{
  ℕ, zero, suc, min, Bool, true, false, not, List, [], ◌∷◌, ◌≡◌, refl, ap, ◌∙◌, default, leb, keep,
  length, take, length-take, All, arith, Bool-cases, inl, inr,
}
use t_log.Shared.Sort.{sorted, IsSorted, sorted-IsSorted, length-sorted}
use t_log.LogStats.{
  Stat, is_fresh, add_device, classify_devices, stamp, key_le, Detail, detail, details,
  build_silent_details,
}

-- The test that splits the devices.
abbrev pub fresh : ℕ → ℕ → Stat → Bool
fresh now threshold_minutes dev = is_fresh now threshold_minutes dev.last_log_timestamp

-- A device is logging exactly when it has a timestamp other than 0 that is no older than the
-- threshold; the others are silent, and both lists keep the order of the answer.
pub classify_devices-keep :
    (stats : List Stat) (now threshold_minutes : ℕ)
    → classify_devices stats now threshold_minutes ≡ (
      keep (fresh now threshold_minutes) stats,
      keep (λ d. not (fresh now threshold_minutes d)) stats,
    )
unfolding classify_devices add_device
classify_devices-keep [] now threshold_minutes = refl
classify_devices-keep (dev ∷ stats) now threshold_minutes =
    elim (Bool-cases (fresh now threshold_minutes dev)) [
      | inl e ↦ rw (e, classify_devices-keep stats now threshold_minutes)
      | inr e ↦ rw (e, classify_devices-keep stats now threshold_minutes)
    ]

abbrev DetailsSorted : List Detail → Type 0
DetailsSorted ds =
    IsSorted (λ (a b : Detail). leb (default a.last_log_at 0) (default b.last_log_at 0)) ds

shown : (d : Stat) → default (detail d).last_log_at 0 ≡ stamp d
unfolding detail
shown d = ground arith

All-details :
    (dev : Stat) (devs : List Stat)
    → All (λ d. key_le dev d ≡ true) devs
    → All
        (λ (d : Detail). leb (default (detail dev).last_log_at 0) (default d.last_log_at 0) ≡ true)
        (details devs)
unfolding details key_le
All-details dev [] h = tt
All-details dev (d ∷ ds) (h, hs) = (rw (shown dev, shown d) h, All-details dev ds hs)

details-IsSorted : (devs : List Stat) → IsSorted key_le devs → DetailsSorted (details devs)
unfolding details
details-IsSorted [] h = tt
details-IsSorted (d ∷ ds) (h, hs) = (All-details d ds h, details-IsSorted ds hs)

All-take : {A : Type 0} (P : A → Type 0) (n : ℕ) (xs : List A) → All P xs → All P (take n xs)
All-take P zero xs h = tt
All-take P (suc n) [] h = tt
All-take P (suc n) (x ∷ xs) (h, hs) = (h, All-take P n xs hs)

take-IsSorted : (n : ℕ) (xs : List Stat) → IsSorted key_le xs → IsSorted key_le (take n xs)
take-IsSorted zero xs h = tt
take-IsSorted (suc n) [] h = tt
take-IsSorted (suc n) (x ∷ xs) (h, hs) = (All-take _ n xs h, take-IsSorted n xs hs)

length-details : (devs : List Stat) → length (details devs) ≡ length devs
unfolding details
length-details [] = refl
length-details (d ∷ ds) = ap suc (length-details ds)

key_total : (a b : Stat) → key_le a b ≡ false → key_le b a ≡ true
unfolding key_le
key_total a b h = ground (arith, h)

key_trans : (a b c : Stat) → key_le a b ≡ true → key_le b c ≡ true → key_le a c ≡ true
unfolding key_le
key_trans a b c h k = ground (arith, h, k)

-- The details are one row for each silent device up to the limit, the ones that never logged first
-- and then from the oldest timestamp to the newest.
pub build_silent_details_lem :
    (silent : List Stat) (limit : ℕ)
    → (length (build_silent_details silent limit) ≡ min limit (length silent))
      × IsSorted
          (λ (a b : Detail). leb (default a.last_log_at 0) (default b.last_log_at 0))
          (build_silent_details silent limit)
unfolding build_silent_details
build_silent_details_lem silent limit = (
  length-details (take limit (sorted key_le silent))
      ∙ length-take limit (sorted key_le silent)
      ∙ ap (min limit) (length-sorted key_le silent),
  details-IsSorted _ (take-IsSorted limit _ (sorted-IsSorted key_le key_total key_trans silent)),
)
