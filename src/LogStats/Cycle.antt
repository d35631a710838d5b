-- ===== src/LogStats/Cycle.antt =====
-- One poll cycle: what it publishes, and what it leaves alone.
use t_log.Shared.{
  ℕ, Bool, true, false, not, ◌&&◌, ◌||◌, ◌⊎◌, some, List, [], ◌∷◌, ◌++◌, Option, none,
  if◌then◌else◌, String, ◌==◌, ◌≡◌, refl, ap, ◌∙◌, sym, keep, any, arith, Bool-cases, inl, inr,
}
use t_log.Shared.Dict.{Dict, values, get, put, get-put, or_else, IsUnique, put-IsUnique}
use t_log.LogUsage.{Reply, got, raised}
use t_log.LogStats.{
  Stat, empty_cache, State, get_cached, Target, add_stats, take_stats, visit, collect, publish,
  poll_all_targets,
}
use t_log.LogStats.Silent.{fresh, classify_devices-keep}

unfoldable pub answers : Reply (List Stat) → Bool
answers (raised e) = false
answers (got stats) = true

-- A target with a label and a host that answers.
abbrev pub answered : Target → Bool
answered t = not (t.label == "" || t.host == "") && answers t.stats

take_stats-ok :
    (r : Reply (List Stat)) (acc : Dict Stat × Bool) → (take_stats r acc).1 ≡ (answers r || acc.1)
unfolding take_stats answers
take_stats-ok (raised e) acc = refl
take_stats-ok (got stats) (devices, polled_ok) = refl

visit-ok : (t : Target) (acc : Dict Stat × Bool) → (visit t acc).1 ≡ (acc.1 || answered t)
unfolding visit
visit-ok t acc = elim (Bool-cases (t.label == "" || t.host == "")) [
  | inl skip ↦ rw skip (ground arith)
  | inr use_it ↦ rw (use_it, take_stats-ok t.stats acc) (ground arith)
]

-- The loop notices whether some target answered.
pub collect-ok :
    (ts : List Target) (acc : Dict Stat × Bool) → (collect ts acc).1 ≡ (acc.1 || any answered ts)
unfolding collect
collect-ok [] acc = ground arith
collect-ok (t ∷ ts) acc = ground (arith, collect-ok ts (visit t acc), visit-ok t acc)

add_stats-IsUnique :
    (stats : List Stat) (devices : Dict Stat)
    → IsUnique devices
    → IsUnique (add_stats stats devices)
unfolding add_stats
add_stats-IsUnique [] devices h = h
add_stats-IsUnique (dev ∷ stats) devices h =
    add_stats-IsUnique stats _ (put-IsUnique dev.devid dev devices h)

take_stats-IsUnique :
    (r : Reply (List Stat)) (acc : Dict Stat × Bool)
    → IsUnique acc.0
    → IsUnique (take_stats r acc).0
unfolding take_stats
take_stats-IsUnique (raised e) acc h = h
take_stats-IsUnique (got stats) (devices, polled_ok) h = add_stats-IsUnique stats devices h

visit-IsUnique : (t : Target) (acc : Dict Stat × Bool) → IsUnique acc.0 → IsUnique (visit t acc).0
unfolding visit
visit-IsUnique t acc h = elim (Bool-cases (t.label == "" || t.host == "")) [
  | inl skip ↦ rw skip h
  | inr use_it ↦ rw use_it (take_stats-IsUnique t.stats acc h)
]

-- No identifier is counted twice, over all targets.
collect-IsUnique :
    (ts : List Target) (acc : Dict Stat × Bool) → IsUnique acc.0 → IsUnique (collect ts acc).0
unfolding collect
collect-IsUnique [] acc h = h
collect-IsUnique (t ∷ ts) acc h = collect-IsUnique ts (visit t acc) (visit-IsUnique t acc h)

-- What the targets that are polled reported, one after the other.
abbrev pub stats_of : Reply (List Stat) → List Stat
stats_of (raised e) = []
stats_of (got stats) = stats

abbrev pub reported : List Target → List Stat
reported [] = []
reported (t ∷ ts) = (if t.label == "" || t.host == "" then [] else stats_of t.stats) ++ reported ts

-- The last record of an identifier.
abbrev pub last_with : String → List Stat → Option Stat
last_with k [] = none
last_with k (dev ∷ devs) = or_else (last_with k devs) (if dev.devid == k then some dev else none)

or_else_assoc : (a b c : Option Stat) → or_else (or_else a b) c ≡ or_else a (or_else b c)
or_else_assoc none b c = refl
or_else_assoc (some x) b c = refl

or_else-none : (a : Option Stat) → or_else a none ≡ a
or_else-none none = refl
or_else-none (some x) = refl

last_with-append :
    (k : String) (xs ys : List Stat)
    → last_with k (xs ++ ys) ≡ or_else (last_with k ys) (last_with k xs)
last_with-append k [] ys = sym (or_else-none (last_with k ys))
last_with-append k (x ∷ xs) ys =
    ap (λ o. or_else o (if x.devid == k then some x else none)) (last_with-append k xs ys)
    ∙ or_else_assoc (last_with k ys) (last_with k xs) _

get-add_stats :
    (k : String) (stats : List Stat) (d : Dict Stat)
    → get k (add_stats stats d) ≡ or_else (last_with k stats) (get k d)
unfolding add_stats
get-add_stats k [] d = refl
get-add_stats k (x ∷ xs) d = elim (Bool-cases (x.devid == k)) [
  | inl e ↦
      rw (get-add_stats k xs (put x.devid x d), get-put, e)
        (sym (or_else_assoc (last_with k xs) (some x) (get k d)))
  | inr e ↦
      rw (get-add_stats k xs (put x.devid x d), get-put, e)
        (sym (or_else_assoc (last_with k xs) none (get k d)))
]

get-take_stats :
    (k : String) (r : Reply (List Stat)) (acc : Dict Stat × Bool)
    → get k (take_stats r acc).0 ≡ or_else (last_with k (stats_of r)) (get k acc.0)
unfolding take_stats
get-take_stats k (raised e) acc = refl
get-take_stats k (got stats) (devices, polled_ok) = get-add_stats k stats devices

abbrev from_target : Target → List Stat
from_target t = if t.label == "" || t.host == "" then [] else stats_of t.stats

get-visit :
    (k : String) (t : Target) (acc : Dict Stat × Bool)
    → get k (visit t acc).0 ≡ or_else (last_with k (from_target t)) (get k acc.0)
unfolding visit
get-visit k t acc = elim (Bool-cases (t.label == "" || t.host == "")) [
  | inl skip ↦ rw skip refl
  | inr use_it ↦ rw use_it (get-take_stats k t.stats acc)
]

-- Under each identifier stands the last record that was reported with it.
get-collect :
    (k : String) (ts : List Target) (acc : Dict Stat × Bool)
    → get k (collect ts acc).0 ≡ or_else (last_with k (reported ts)) (get k acc.0)
unfolding collect
get-collect k [] acc = refl
get-collect k (t ∷ ts) acc =
    get-collect k ts (visit t acc)
    ∙ ap (or_else (last_with k (reported ts))) (get-visit k t acc)
    ∙ sym (or_else_assoc (last_with k (reported ts)) (last_with k (from_target t)) (get k acc.0))
    ∙ ap (λ o. or_else o (get k acc.0)) (sym (last_with-append k (from_target t) (reported ts)))

-- A process that has not polled, next to the store and the history of `s`.
abbrev pub worker : State → State
worker s = record s { cache = empty_cache }

module _ (now : ℕ) (collected_at cutoff : String) (threshold_minutes : ℕ) (targets : List Target)
    (s : State) where
  abbrev polled : State
  polled = poll_all_targets now collected_at cutoff threshold_minutes targets s

  -- A cycle in which no target answers changes nothing. After any other cycle the cache is the one
  -- that a process without a cache of its own reads, it has the time of the cycle, and it splits the
  -- devices into those that are fresh at that time and the others, where each identifier that some
  -- target reported stands once, with the last record that was reported for it.
  pub poll_all_targets_lem :
      ((any answered targets ≡ false) × (polled ≡ s))
      ⊎ ((any answered targets ≡ true)
          × ((devices : Dict Stat) × IsUnique devices
              × ((k : String) → get k devices ≡ last_with k (reported targets))
              × (polled.cache.logging_devices ≡ keep (fresh now threshold_minutes) (values devices))
              × (polled.cache.silent_devices
                  ≡ keep (λ d. not (fresh now threshold_minutes d)) (values devices)))
          × (polled.cache.collected_at ≡ some collected_at)
          × ((get_cached (worker polled)).1 ≡ polled.cache))
  unfolding poll_all_targets publish get_cached get
  poll_all_targets_lem =
      let noticed = collect-ok targets ([], false) in
      let devices = (collect targets ([], false)).0 in
      let unique = collect-IsUnique targets ([], false) tt in
      elim (Bool-cases (any answered targets)) [
        | inr n ↦ inl (n, rw (noticed, n))
        | inl y ↦
            let split = classify_devices-keep (values devices) now threshold_minutes in
            inr (
              rw (noticed, y)
                (
                  refl,
                  (
                    devices,
                    unique,
                    λ k.
                        get-collect k targets ([], false)
                        ∙ or_else-none (last_with k (reported targets)),
                    ap (λ (r : List Stat × List Stat). r.0) split,
                    ap (λ (r : List Stat × List Stat). r.1) split,
                  ),
                  refl,
                  refl,
                ))
      ]
