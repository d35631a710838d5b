-- ===== src/Login/Window.antt =====
-- What the limiter counts: the failures of the last 600 ticks, by address and by name.
use t_log.Shared.{
  ℕ, ◌+◌, ◌≤◌, ◌<◌, true, false, ◌||◌, List, [], ◌∷◌, ◌++◌, String, ◌==◌, eq_iff, eq_refl, ◌≡◌,
  refl, ap, leb, if◌then◌else◌, length, keep-append, length-append, arith, Bool-cases, inl, inr,
}
use t_log.Shared.Text.{Unicode}
use t_log.Shared.Dict.{Dict, put, has, get-put, length-put}
use t_log.Login.{
  window_seconds, ip_max, user_max, Failures, times, recent, norm_username, is_rate_limited,
  record_failure,
}

-- Failures that count at a time, for an address and for a normalised name.
abbrev pub ip_count : ℕ → String → Failures → ℕ
ip_count now ip s = length (recent now (times ip s.by_ip))

abbrev pub user_count : ℕ → String → Failures → ℕ
user_count now norm s = length (recent now (times norm s.by_user))

recent-recent : (a b : ℕ) (ts : List ℕ) → a ≤ b → recent b (recent a ts) ≡ recent b ts
unfolding recent
recent-recent a b [] h = refl
recent-recent a b (t ∷ ts) h = ground (arith, recent-recent a b ts h)

recent_mono : (a b : ℕ) (ts : List ℕ) → a ≤ b → length (recent b ts) ≤ length (recent a ts)
unfolding recent
recent_mono a b [] h = omega arith
recent_mono a b (t ∷ ts) h = ground (arith, recent_mono a b ts h)

recent-append : (now : ℕ) (ts us : List ℕ) → recent now (ts ++ us) ≡ recent now ts ++ recent now us
unfolding recent
recent-append now ts us = keep-append _ ts us

-- Writing back what is recent changes no later count.
recent-put :
    (now later : ℕ) (k j : String) (d : Dict (List ℕ))
    → now ≤ later
    → recent later (times j (put k (recent now (times k d)) d)) ≡ recent later (times j d)
recent-put now later k j d h = elim (Bool-cases (k == j)) [
  | inl e ↦
      let same : k ≡ j = (eq_iff k j).0 e in
      rw (get-put, e, ← same) (recent-recent now later (times k d) h)
  | inr e ↦ rw (get-put, e)
]

times-push :
    (now : ℕ) (k j : String) (d : Dict (List ℕ))
    → times j (put k (times k d ++ now ∷ []) d)
      ≡ (if k == j then times j d ++ now ∷ [] else times j d)
times-push now k j d = elim (Bool-cases (k == j)) [
  | inl e ↦ let same : k ≡ j = (eq_iff k j).0 e in rw (get-put, e, ← same)
  | inr e ↦ rw (get-put, e)
]

count-push :
    (now later : ℕ) (k j : String) (d : Dict (List ℕ))
    → later < now + window_seconds
    → length (recent later (times j (put k (times k d ++ now ∷ []) d)))
      ≡ length (recent later (times j d)) + (if k == j then 1 else 0)
count-push now later k j d h = elim (Bool-cases (k == j)) [
  | inl e ↦ rw (times-push, e, recent-append, length-append) (unfold recent in ground arith)
  | inr e ↦ rw (times-push, e) (omega arith)
]

pub user_count_mono :
    (a b : ℕ) (norm : String) (s : Failures) → a ≤ b → user_count b norm s ≤ user_count a norm s
user_count_mono a b norm s h = recent_mono a b (times norm s.by_user) h

module _ (u : Unicode) (max_keys : ℕ) where
  -- An attempt is refused exactly when ten failures of the address or five of the name lie in the
  -- window; asking changes no later count, of any address and any name.
  pub is_rate_limited_lem :
      (now later : ℕ) (ip username other_ip norm : String) (s : Failures)
      → now ≤ later
      → ((is_rate_limited u max_keys now ip username s).1 ≡ (
          leb ip_max (ip_count now ip s)
          || leb user_max (user_count now (norm_username u username) s)))
        × (ip_count later other_ip (is_rate_limited u max_keys now ip username s).0
            ≡ ip_count later other_ip s)
        × (user_count later norm (is_rate_limited u max_keys now ip username s).0
            ≡ user_count later norm s)
  unfolding is_rate_limited
  is_rate_limited_lem now later ip username other_ip norm s h = (
    refl,
    ap length (recent-put now later ip other_ip s.by_ip h),
    ap length (recent-put now later (norm_username u username) norm s.by_user h),
  )

  asked-has :
      (now : ℕ) (ip username : String) (s : Failures)
      → has (norm_username u username) (is_rate_limited u max_keys now ip username s).0.by_user
        ≡ true
  unfolding is_rate_limited
  asked-has now ip username s = rw (get-put, eq_refl)

  asked-length :
      (now : ℕ) (ip username : String) (s : Failures)
      → has (norm_username u username) s.by_user ≡ false
      → length (is_rate_limited u max_keys now ip username s).0.by_user ≡ length s.by_user + 1
  unfolding is_rate_limited
  asked-length now ip username s new = rw (length-put, new)

  -- A name that was asked about has a key, so the failure that follows evicts nothing.
  record_after_ask :
      (now now' : ℕ) (ip username : String) (s : Failures)
      → (record_failure u max_keys now' ip username
          (is_rate_limited u max_keys now ip username s).0).by_user
        ≡ (let norm = norm_username u username in
            let asked = (is_rate_limited u max_keys now ip username s).0.by_user in
            put norm (times norm asked ++ now' ∷ []) asked)
  unfolding record_failure is_rate_limited
  record_after_ask now now' ip username s = ground (
    arith,
    get-put (norm_username u username) (norm_username u username)
        (recent now (times (norm_username u username) s.by_user)) s.by_user,
    eq_refl (norm_username u username),
  )

  -- A failed attempt counts once for its name at every time of the window after it, and for no
  -- other name, however many names are stored.
  pub user_count-record_failure :
      (now now' later : ℕ) (ip username norm : String) (s : Failures)
      → now ≤ later
      → later < now' + window_seconds
      → user_count later norm (
          record_failure u max_keys now' ip username
            (is_rate_limited u max_keys now ip username s).0)
        ≡ user_count later norm s + (if norm_username u username == norm then 1 else 0)
  user_count-record_failure now now' later ip username norm s h k = rw (
    record_after_ask now now' ip username s,
    count-push now' later _ norm _ k,
    (is_rate_limited_lem now later ip username ip norm s h).2,
  )

  -- A failed login under a name that is not stored adds a key to the table of names, whatever the
  -- bound on the number of keys: the eviction is never reached.
  pub length-record_failure :
      (now now' : ℕ) (ip username : String) (s : Failures)
      → has (norm_username u username) s.by_user ≡ false
      → length
          (record_failure u max_keys now' ip username
            (is_rate_limited u max_keys now ip username s).0).by_user
        ≡ length s.by_user + 1
  length-record_failure now now' ip username s new =
      rw (record_after_ask now now' ip username s, length-put, asked-has now ip username s)
        (asked-length now ip username s new)
