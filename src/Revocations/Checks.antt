-- ===== src/Revocations/Checks.antt =====
-- When an SSO session counts as valid: after a logout, without 4tSuite, and over any run of checks.
use t_log.Shared.{
  Bool, true, false, not, Option, none, some, List, [], ◌∷◌, ◌++◌, String, ◌≡◌, ◌⊎◌, inl, inr, refl,
  ◌∙◌, sym, ap, if◌then◌else◌, is_some, Bool-cases, Option-cases, arith,
}
use t_log.Shared.Int.{ℤ, pos, ◌+ℤ◌, ◌-ℤ◌, ◌≤ℤ◌, ltb_ℤ, leb_ℤ, +ℤ_parts, -ℤ_parts}
use t_log.Shared.Dict.{Dict, get}
use t_log.Shared.Json.{Json}
use t_log.Revocations.{
  parse_revocations, Checker, new_checker, retry_seconds, min_ℤ, past_grace, retry_after,
  unavailable, refresh, is_due, answer, allows, sso_session_valid,
}

-- A fetch that returned a well-formed list.
abbrev pub parsed : Option Json → Option (Dict ℤ × ℤ)
parsed none = none
parsed (some payload) = parse_revocations payload

-- The comparison with the clock skew is one of ages: it can be made without the offset.
skew :
    (login server now logged_out : ℤ)
    → ltb_ℤ (login +ℤ (server -ℤ now)) logged_out ≡ ltb_ℤ (login +ℤ server) (logged_out +ℤ now)
skew login server now logged_out = ground (
  arith,
  +ℤ_parts login (server -ℤ now),
  -ℤ_parts server now,
  +ℤ_parts login server,
  +ℤ_parts logged_out now,
)

now-now : (g now : ℤ) → pos 0 ≤ℤ g → ltb_ℤ g (now -ℤ now) ≡ false
now-now g now h = ground (arith, -ℤ_parts now now)

due_shift :
    (cache now retry later : ℤ)
    → leb_ℤ cache (later -ℤ (now -ℤ cache +ℤ retry)) ≡ leb_ℤ (now +ℤ retry) later
due_shift cache now retry later = ground (
  arith,
  -ℤ_parts later (now -ℤ cache +ℤ retry),
  +ℤ_parts (now -ℤ cache) retry,
  -ℤ_parts now cache,
  +ℤ_parts now retry,
)

-- One check: its time, what the fetch returned if it was made, and the session asked about.
pub record Call : Type 0 where
  pub now : ℤ
  pub fetched : Option Json
  pub username : String
  pub login_at : ℤ

-- The list was fetched at a time `g` by one of the calls.
abbrev pub FetchedAt : ℤ → List Call → Type 0
FetchedAt g [] = ⊥
FetchedAt g (c ∷ cs) = ((c.now ≡ g) × (is_some (parsed c.fetched) ≡ true)) ⊎ FetchedAt g cs

module _ (cache grace : ℤ) where
  refresh-some :
      (now server : ℤ) (users : Dict ℤ) (fetched : Option Json) (s : Checker)
      → parsed fetched ≡ some (users, server)
      → refresh cache grace now fetched s
        ≡ record { users = users; offset = server -ℤ now; fetched_at = some now; last_good = now }
  unfolding refresh
  refresh-some now server users none s h = cc
  refresh-some now server users (some payload) s h = rw (h, refresh)

  refresh-none :
      (now : ℤ) (fetched : Option Json) (s : Checker)
      → parsed fetched ≡ none
      → refresh cache grace now fetched s ≡ unavailable cache grace now s
  unfolding refresh
  refresh-none now none s h = refl
  refresh-none now (some payload) s h = rw (h, refresh)

  -- A check that has just fetched the list ends exactly the sessions whose logout is later than
  -- their login, each measured back from the reading of its own clock: 4tSuite's server time for the
  -- logout and the local time for the login.
  pub sso_session_valid-fetched :
      (now server : ℤ) (users : Dict ℤ) (fetched : Option Json) (username : String) (login_at : ℤ)
      (s : Checker)
      → pos 0 ≤ℤ grace
      → is_due cache grace now s ≡ true
      → parsed fetched ≡ some (users, server)
      → (sso_session_valid cache grace now fetched username login_at s).1
        ≡ elim (get username users) [
          | none ↦ true
          | some logged_out_at ↦ not (ltb_ℤ (login_at +ℤ server) (logged_out_at +ℤ now))
        ]
  unfolding sso_session_valid answer
  sso_session_valid-fetched now server users fetched username login_at s h due fresh =
      rw (due, refresh-some now server users fetched s fresh, now-now grace now h)
        (allows-skew (get username users))
    where
      allows-skew :
          (o : Option ℤ)
          → allows login_at (server -ℤ now) o ≡ elim o [
            | none ↦ true
            | some logged_out_at ↦ not (ltb_ℤ (login_at +ℤ server) (logged_out_at +ℤ now))
          ]
      allows-skew none = refl
      allows-skew (some t) = ap not (skew login_at server now t)

  unfoldable pub step : Call → Checker → Checker × Bool
  step c s = sso_session_valid cache grace c.now c.fetched c.username c.login_at s

  unfoldable pub run : List Call → Checker → Checker
  run [] s = s
  run (c ∷ cs) s = run cs (step c s).0

  step-last_good :
      (c : Call) (s : Checker)
      → ((step c s).0.last_good ≡ s.last_good)
        ⊎ ((c.now ≡ (step c s).0.last_good) × (is_some (parsed c.fetched) ≡ true))
  unfolding step sso_session_valid
  step-last_good c s = elim (Bool-cases (is_due cache grace c.now s)) [
    | inr rests ↦ inl (rw rests)
    | inl due ↦ elim (Option-cases (parsed c.fetched)) [
      | inl failed ↦
          inl (rw (due, refresh-none c.now c.fetched s failed) (unfold unavailable in refl))
      | inr ((users, server), fresh) ↦
          inr (rw (due, refresh-some c.now server users c.fetched s fresh), rw fresh)
    ]
  ]

  run-last_good :
      (cs : List Call) (s : Checker)
      → ((run cs s).last_good ≡ s.last_good) ⊎ FetchedAt (run cs s).last_good cs
  unfolding run
  run-last_good [] s = inl refl
  run-last_good (c ∷ cs) s = elim (run-last_good cs (step c s).0) [
    | inr fetched ↦ inr (inr fetched)
    | inl same ↦ elim (step-last_good c s) [
      | inl kept ↦ inl (same ∙ kept)
      | inr (at, fresh) ↦ inr (inl (at ∙ sym same, fresh))
    ]
  ]

  run-snoc :
      (cs : List Call) (c : Call) (s : Checker) → run (cs ++ c ∷ []) s ≡ (step c (run cs s)).0
  unfolding run
  run-snoc [] c s = refl
  run-snoc (d ∷ cs) c s = run-snoc cs c (step d s).0

  answer-true :
      (c : Call) (s : Checker)
      → (step c s).1 ≡ true
      → ltb_ℤ grace (c.now -ℤ (step c s).0.last_good) ≡ false
  unfolding step sso_session_valid answer
  answer-true c s h = elim (Bool-cases (ltb_ℤ grace (c.now -ℤ (step c s).0.last_good))) [
    | inl past ↦ absurd (cc (rw past at h))
    | inr within ↦ within
  ]

  -- Over any run of checks from a new checker, a session is accepted only within the grace period
  -- after a time at which the revocation list was fetched, or after the checker was created.
  pub accepted_within_grace :
      (created : ℤ) (cs : List Call) (c : Call)
      → (step c (run cs (new_checker created))).1 ≡ true
      → (g : ℤ) × ((g ≡ created) ⊎ FetchedAt g (cs ++ c ∷ [])) × (ltb_ℤ grace (c.now -ℤ g) ≡ false)
  unfolding new_checker
  accepted_within_grace created cs c h = (
    (run (cs ++ c ∷ []) (new_checker created)).last_good,
    run-last_good (cs ++ c ∷ []) (new_checker created),
    rw run-snoc (answer-true c (run cs (new_checker created)) h),
  )

  -- After a fetch that failed the next one is made after the cache time, or, once the grace period
  -- is over, after five seconds if that is sooner.
  pub is_due-refresh_failed :
      (now later : ℤ) (fetched : Option Json) (s : Checker)
      → parsed fetched ≡ none
      → is_due cache grace later (refresh cache grace now fetched s)
        ≡ leb_ℤ
            (now +ℤ (if past_grace cache grace now s then min_ℤ cache retry_seconds else cache))
            later
  unfolding unavailable retry_after
  is_due-refresh_failed now later fetched s h =
      rw (refresh-none now fetched s h) (due_shift cache now _ later)

  -- While fetches fail and the grace period lasts, the last known list and its offset decide.
  pub sso_session_valid-failed :
      (now : ℤ) (fetched : Option Json) (username : String) (login_at : ℤ) (s : Checker)
      → parsed fetched ≡ none
      → past_grace cache grace now s ≡ false
      → (sso_session_valid cache grace now fetched username login_at s).1
        ≡ allows login_at s.offset (get username s.users)
  unfolding sso_session_valid answer unavailable
  sso_session_valid-failed now fetched username login_at s h within =
      elim (Bool-cases (is_due cache grace now s)) [
        | inl due ↦ rw (due, refresh-none now fetched s h, within)
        | inr rests ↦ rw (rests, within)
      ]
