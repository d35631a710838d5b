-- ===== src/Login/Handler.antt =====
-- How many passwords can be tried against one name: the bound that the limiter gives /login.
use t_log.Shared.{
  ℕ, ◌+◌, ◌≤◌, ◌<◌, true, false, ◌||◌, Option, none, some, List, [], ◌∷◌, String, ◌==◌, eq_iff,
  eq_refl, ◌≡◌, ◌≢◌, ◌⊎◌, refl, ◌∙◌, if◌then◌else◌, arith, Bool-cases, inl, inr, All,
}
use t_log.Shared.Text.{strip, Unicode}
use t_log.Shared.Dict.{get-remove}
use t_log.Login.{
  window_seconds, ip_max, user_max, Failures, norm_username, is_rate_limited, clear_failures, times,
  Attempt, Answer, bad_request, unauthorized, too_many, success, decide, login, login_all,
}
use t_log.Login.Window.{
  ip_count, user_count, user_count_mono, is_rate_limited_lem, user_count-record_failure,
}

module _ (u : Unicode) (max_keys : ℕ)
    (authenticate : String → String → Option (String × List String)) (norm : String)
    (last : ℕ) where
  -- The name that an attempt is counted under.
  abbrev pub counted_name : Attempt → String
  counted_name a = norm_username u (strip a.username)

  -- An attempt of the window that ends at `last`: it began no later, its failure still counts at
  -- `last`, and it does not log in under the name in question.
  pub record InWindow (a : Attempt) : Type 0 where
    pub began : a.asked_at ≤ last
    pub counts : last < a.failed_at + window_seconds
    pub rejected : counted_name a ≡ norm → authenticate (strip a.username) a.password ≡ none

  -- The password checks against the name that failed.
  abbrev pub failures : List Attempt → List Answer → ℕ
  failures (a ∷ attempts) (unauthorized ∷ answers) =
      (if counted_name a == norm then 1 else 0) + failures attempts answers
  failures (a ∷ attempts) (answer ∷ answers) = failures attempts answers
  failures _ _ = 0

  abbrev failed : Attempt → Answer → ℕ
  failed a unauthorized = if counted_name a == norm then 1 else 0
  failed a _ = 0

  failures-cons :
      (a : Attempt) (attempts : List Attempt) (answer : Answer) (answers : List Answer)
      → failures (a ∷ attempts) (answer ∷ answers) ≡ failed a answer + failures attempts answers
  failures-cons a attempts bad_request answers = omega arith
  failures-cons a attempts unauthorized answers = refl
  failures-cons a attempts too_many answers = omega arith
  failures-cons a attempts (success role ad_groups) answers = omega arith

  clear-count :
      (a : Attempt) (s : Failures)
      → counted_name a ≢ norm
      → user_count last norm (clear_failures u max_keys a.ip (strip a.username) s)
        ≡ user_count last norm s
  unfolding clear_failures
  clear-count a s ne =
      let other : (counted_name a == norm) ≡ false = ground (arith, eq_iff (counted_name a) norm) in
      rw (get-remove, other)

  abbrev asked : Attempt → Failures → Failures
  asked a s = (is_rate_limited u max_keys a.asked_at a.ip (strip a.username) s).0

  asked-count :
      (a : Attempt) (s : Failures)
      → InWindow a
      → user_count last norm (asked a s) ≡ user_count last norm s
  asked-count a s w =
      (is_rate_limited_lem u max_keys a.asked_at last a.ip (strip a.username) a.ip norm s w.began).2

  -- An attempt that is let through finds fewer than five failures of its name.
  passed-count :
      (a : Attempt) (s : Failures)
      → InWindow a
      → (is_rate_limited u max_keys a.asked_at a.ip (strip a.username) s).1 ≡ false
      → (counted_name a == norm) ≡ true
      → user_count last norm s < user_max
  passed-count a s w pass same =
      let name : counted_name a ≡ norm = (eq_iff (counted_name a) norm).0 same in
      let asks =
        (is_rate_limited_lem u max_keys a.asked_at last a.ip (strip a.username) a.ip norm s
          w.began).0 in
      let few : user_count a.asked_at (counted_name a) s < user_max = ground (arith, asks) in
      let few' : user_count a.asked_at norm s < user_max = rw (← name) few in
      omega (arith, user_count_mono a.asked_at last norm s w.began)

  abbrev Counts : Attempt → Failures → Failures × Answer → Type 0
  Counts a s r =
      (user_count last norm r.0 ≡ user_count last norm s + failed a r.1)
      × (user_count last norm r.0 ≤ user_max)

  decide-count :
      (a : Attempt) (s : Failures) (o : Option (String × List String))
      → InWindow a
      → user_count last norm s ≤ user_max
      → (is_rate_limited u max_keys a.asked_at a.ip (strip a.username) s).1 ≡ false
      → (counted_name a ≡ norm → o ≡ none)
      → Counts a s (decide u max_keys authenticate a (strip a.username) (asked a s) o)
  unfolding decide
  decide-count a s none w h pass rejects =
      let grown =
        user_count-record_failure u max_keys a.asked_at a.failed_at last a.ip (strip a.username)
          norm s w.began w.counts in
      (grown, ground (arith, grown, passed-count a s w pass))
  decide-count a s (some (role, ad_groups)) w h pass rejects =
      let kept = clear-count a (asked a s) (λ same. cc (rejects same)) ∙ asked-count a s w in
      (omega (arith, kept), omega (arith, kept))

  login-count :
      (a : Attempt) (s : Failures)
      → InWindow a
      → user_count last norm s ≤ user_max
      → Counts a s (login u max_keys authenticate a s)
  unfolding login
  login-count a s w h = elim (Bool-cases (strip a.username == "" || a.password == "")) [
    | inl blank ↦ rw blank (omega arith, h)
    | inr full ↦
        elim (Bool-cases (is_rate_limited u max_keys a.asked_at a.ip (strip a.username) s).1) [
          | inl limited ↦
              rw (full, limited)
                (omega (arith, asked-count a s w), omega (arith, asked-count a s w))
          | inr pass ↦ rw (full, pass) (decide-count a s _ w h pass w.rejected)
        ]
  ]

  login_all-count :
      (attempts : List Attempt) (s : Failures)
      → All InWindow attempts
      → user_count last norm s ≤ user_max
      → (user_count last norm (login_all u max_keys authenticate attempts s).0
          ≡ user_count last norm s
            + failures attempts (login_all u max_keys authenticate attempts s).1)
        × (user_count last norm (login_all u max_keys authenticate attempts s).0 ≤ user_max)
  unfolding login_all
  login_all-count [] s w h = (omega arith, h)
  login_all-count (a ∷ rest) s (w, ws) h =
      let (step, bound) = login-count a s w h in
      let (later, final) = login_all-count rest (login u max_keys authenticate a s).0 ws bound in
      (omega (arith, failures-cons a rest _ _), final)

  -- In a window of 600 ticks at most five password checks against one name fail, counting those
  -- that were stored before and still lie in the window, whatever the addresses and the spelling of
  -- the name; further attempts are refused unchecked. No attempt of the window logs in under the
  -- name, and at most five failures of it were stored.
  pub login_all-le_user_max :
      (attempts : List Attempt) (s : Failures)
      → All InWindow attempts
      → user_count last norm s ≤ user_max
      → user_count last norm s + failures attempts (login_all u max_keys authenticate attempts s).1
        ≤ user_max
  login_all-le_user_max attempts s w h =
      let (grown, bound) = login_all-count attempts s w h in omega arith

decide-success :
    (u : Unicode) (max_keys : ℕ) (authenticate : String → String → Option (String × List String))
    (a : Attempt) (s : Failures) (o : Option (String × List String)) (role : String)
    (ad_groups : List String)
    → (decide u max_keys authenticate a (strip a.username) s o).1 ≡ success role ad_groups
    → (o ≡ some (role, ad_groups))
      × (times a.ip (decide u max_keys authenticate a (strip a.username) s o).0.by_ip ≡ [])
      × (times
            (norm_username u (strip a.username))
            (decide u max_keys authenticate a (strip a.username) s o).0.by_user
          ≡ [])
unfolding decide clear_failures
decide-success u max_keys authenticate a s none role ad_groups h = cc
decide-success u max_keys authenticate a s (some (r, g)) role ad_groups h =
    (cc h, rw (get-remove, eq_refl), rw (get-remove, eq_refl))

module _ (u : Unicode) (max_keys : ℕ)
    (authenticate : String → String → Option (String × List String)) (a : Attempt) (s : Failures)
    (filled : (strip a.username == "" || a.password == "") ≡ false) where
  -- A filled-in attempt is answered "too many" exactly when the address has ten failures or the name
  -- has five in the window, whatever the password.
  pub login-too_many :
      (ip_max ≤ ip_count a.asked_at a.ip s)
        ⊎ (user_max ≤ user_count a.asked_at (norm_username u (strip a.username)) s)
      → (login u max_keys authenticate a s).1 ≡ too_many
  unfolding login
  login-too_many h =
      let asks =
        (is_rate_limited_lem u max_keys a.asked_at a.asked_at a.ip (strip a.username) a.ip "" s
          (omega arith)).0 in
      let limited : (is_rate_limited u max_keys a.asked_at a.ip (strip a.username) s).1 ≡ true =
        ground (arith, asks) in
      rw (filled, limited)

  -- A successful login forgets every failure of the address and of the name.
  pub login-success :
      (role : String) (ad_groups : List String)
      → (login u max_keys authenticate a s).1 ≡ success role ad_groups
      → (authenticate (strip a.username) a.password ≡ some (role, ad_groups))
        × (times a.ip (login u max_keys authenticate a s).0.by_ip ≡ [])
        × (times (norm_username u (strip a.username)) (login u max_keys authenticate a s).0.by_user
            ≡ [])
  unfolding login
  login-success role ad_groups h =
      elim (Bool-cases (is_rate_limited u max_keys a.asked_at a.ip (strip a.username) s).1) [
        | inl limited ↦ absurd (cc (rw (filled, limited) at h))
        | inr pass ↦
            rw (filled, pass)
              (decide-success u max_keys authenticate a _
                (authenticate (strip a.username) a.password) role ad_groups
                (rw (filled, pass) at h))
      ]
