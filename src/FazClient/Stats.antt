-- ===== src/FazClient/Stats.antt =====
-- Which devices a poll of the log statistics takes for silent, in terms of their vdoms.
use t_log.Shared.{
  ℕ, zero, suc, Bool, not, ◌||◌, Option, none, some, List, [], ◌∷◌, ◌≡◌, refl, ap, ◌∙◌, default,
  map, any, keep, arith, Bool-cases, inl, inr,
}
use t_log.LogUsage.{got}
use t_log.LogStats.{Stat, is_fresh, classify_devices}
use t_log.LogStats.Silent.{fresh, classify_devices-keep}
use t_log.FazClient.{Vdom, Logging, later, newest, last_log, device_stat, get_log_stats}

module _ (now threshold_minutes : ℕ) where
  -- A vdom has logged within the threshold.
  abbrev pub vdom_fresh : Vdom → Bool
  vdom_fresh v = is_fresh now threshold_minutes v.last_log_timestamp

  abbrev pub some_fresh : Logging → Bool
  some_fresh dev = any vdom_fresh (default dev.vdoms [])

  is_fresh-newest :
      (o rest : Option ℕ)
      → is_fresh now threshold_minutes (newest o rest)
        ≡ (is_fresh now threshold_minutes o || is_fresh now threshold_minutes rest)
  unfolding newest later is_fresh
  is_fresh-newest none rest = refl
  is_fresh-newest (some zero) rest = refl
  is_fresh-newest (some (suc t)) none = ground arith
  is_fresh-newest (some (suc t)) (some zero) = ground arith
  is_fresh-newest (some (suc t)) (some (suc s)) = ground arith

  is_fresh-last_log :
      (vdoms : List Vdom) → is_fresh now threshold_minutes (last_log vdoms) ≡ any vdom_fresh vdoms
  unfolding last_log is_fresh
  is_fresh-last_log [] = refl
  is_fresh-last_log (v ∷ vdoms) =
      is_fresh-newest v.last_log_timestamp (last_log vdoms)
      ∙ ap (λ b. vdom_fresh v || b) (is_fresh-last_log vdoms)

  fresh-device_stat :
      (dev : Logging) → fresh now threshold_minutes (device_stat dev) ≡ some_fresh dev
  unfolding device_stat
  fresh-device_stat dev = is_fresh-last_log (default dev.vdoms [])

  keep-device_stat :
      (devs : List Logging) (p : Stat → Bool) (q : Logging → Bool)
      → ((dev : Logging) → p (device_stat dev) ≡ q dev)
      → keep p (map device_stat devs) ≡ map device_stat (keep q devs)
  keep-device_stat [] p q same = refl
  keep-device_stat (dev ∷ devs) p q same = elim (Bool-cases (q dev)) [
    | inl y ↦ rw (same dev, y) (ap (λ xs. device_stat dev ∷ xs) (keep-device_stat devs p q same))
    | inr n ↦ rw (same dev, n) (keep-device_stat devs p q same)
  ]

  -- Of the devices that the appliance reports, those count as logging that have a vdom whose last log
  -- is no older than the threshold, whatever the other vdoms say, and exactly the others count as
  -- silent, among them every device without vdoms. Both lists keep the order of the answer.
  pub classify_devices-get_log_stats :
      (devs : List Logging) (stats : List Stat)
      → get_log_stats (got (some devs)) ≡ got stats
      → classify_devices stats now threshold_minutes ≡ (
        map device_stat (keep some_fresh devs),
        map device_stat (keep (λ dev. not (some_fresh dev)) devs),
      )
  unfolding get_log_stats
  classify_devices-get_log_stats devs stats h =
      let same : map device_stat devs ≡ stats = cc h in
      rw (← same) (
        classify_devices-keep (map device_stat devs) now threshold_minutes
        ∙ ap (λ xs. (xs, keep (λ d. not (fresh now threshold_minutes d)) (map device_stat devs)))
            (keep-device_stat devs (fresh now threshold_minutes) some_fresh fresh-device_stat)
        ∙ ap (λ xs. (map device_stat (keep some_fresh devs), xs))
            (keep-device_stat devs (λ d. not (fresh now threshold_minutes d))
              (λ dev. not (some_fresh dev)) (λ dev. ap not (fresh-device_stat dev))))
