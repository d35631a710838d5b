-- ===== src/LogUsage/Request/Rules.antt =====
-- What a validated log-usage request guarantees to the search.
use t_log.Shared.{
  false, ◌&&◌, ◌||◌, Option, none, some, List, [], ◌∷◌, String, ◌==◌, eq_iff, ◌≡◌, ◌≢◌, refl, ◌∙◌,
  All, any, arith, Bool-cases, Option-cases, inl, inr,
}
use t_log.Shared.Int.{ℤ, pos, leb_ℤ, ◌≤ℤ◌}
use t_log.Shared.Text.{Unicode, strip, strip_idem}
use t_log.Shared.Dict.{Dict, get, put, has, values, get-put, IsUnique, put-IsUnique}
use t_log.Shared.Json.{Json, null, bool, int, float, not_finite, str, list, dict, cons, items}
use t_log.LogUsage.Request.{
  LogRequest, accepted, device_names, devices_of, int_between, set_default, dedupe, check_rest,
  validate_log_usage_request,
}

-- A name that the search can use: stripped, and not blank.
abbrev pub IsName : String → Type 0
IsName d = (strip d ≡ d) × (d ≢ "")

-- The names that the checked `devices` list holds.
device_names-IsName :
    (ds : List Json) (names : List String) → device_names ds ≡ some names → All IsName names
unfolding device_names
device_names-IsName [] names h = let same : [] ≡ names = cc h in rw (← same) tt
device_names-IsName (str d ∷ ds) names h = elim (Bool-cases (strip d == "")) [
  | inl blank ↦ absurd (cc (rw blank at h))
  | inr filled ↦ elim (Option-cases (device_names ds)) [
    | inl e ↦ absurd (cc (rw (filled, e) at h))
    | inr (rest, e) ↦
        let same : strip d ∷ rest ≡ names = cc (rw (filled, e) at h) in
        rw (← same) (
          (strip_idem d, ground (arith, eq_iff (strip d) "", filled)),
          device_names-IsName ds rest e,
        )
  ]
]
device_names-IsName (null ∷ ds) names h = absurd (cc h)
device_names-IsName (bool b ∷ ds) names h = absurd (cc h)
device_names-IsName (int n ∷ ds) names h = absurd (cc h)
device_names-IsName (float n ∷ ds) names h = absurd (cc h)
device_names-IsName (not_finite ∷ ds) names h = absurd (cc h)
device_names-IsName (list vs ∷ ds) names h = absurd (cc h)
device_names-IsName (dict fs ∷ ds) names h = absurd (cc h)

int_between-bounds :
    (low high : ℤ) (v : Option Json) (n : ℤ)
    → int_between low (some high) v ≡ some n
    → (low ≤ℤ n) × (n ≤ℤ high)
unfolding int_between
int_between-bounds low high (some (int m)) n h = elim (Bool-cases (leb_ℤ low m && leb_ℤ m high)) [
  | inl e ↦ let same : m ≡ n = cc (rw e at h) in rw (← same) (ground (arith, e), ground (arith, e))
  | inr e ↦ absurd (cc (rw e at h))
]
int_between-bounds low high _ n h = absurd (cc h)

int_between-low : (low : ℤ) (v : Option Json) (n : ℤ) → int_between low none v ≡ some n → low ≤ℤ n
unfolding int_between
int_between-low low (some (int m)) n h = elim (Bool-cases (leb_ℤ low m)) [
  | inl e ↦ let same : m ≡ n = cc (rw e at h) in rw (← same) (ground (arith, e))
  | inr e ↦ absurd (cc (rw e at h))
]
int_between-low low _ n h = absurd (cc h)

devices_of-IsName :
    (v : Option Json) (names : List String) → devices_of v ≡ some names → All IsName names
unfolding devices_of
devices_of-IsName (some (list (cons d ds))) names h = device_names-IsName (d ∷ items ds) names h
devices_of-IsName _ names h = absurd (cc h)

module _ (u : Unicode) where
  -- Each key is the lower case of its name.
  abbrev Lowered : Dict String → Type 0
  Lowered d = All (λ (e : String × String). (e.0 ≡ u.lower e.1) × IsName e.1) d

  put-Lowered :
      (name : String) (d : Dict String)
      → IsName name
      → Lowered d
      → has (u.lower name) d ≡ false
      → Lowered (put (u.lower name) name d)
  unfolding put get
  put-Lowered name [] good h new = ((refl, good), tt)
  put-Lowered name ((j, w) ∷ d) good (h, hs) new = elim (Bool-cases (j == u.lower name)) [
    | inl e ↦ absurd (cc (rw e at new))
    | inr e ↦ rw e (h, put-Lowered name d good hs (rw e at new))
  ]

  -- No two names of the list have the same lower case.
  abbrev pub DistinctNames : List String → Type 0
  DistinctNames [] = Unit
  DistinctNames (n ∷ ns) = (any (λ m. u.lower m == u.lower n) ns ≡ false) × DistinctNames ns

  any-values :
      (k : String) (d : Dict String) → Lowered d → any (λ m. u.lower m == k) (values d) ≡ has k d
  unfolding values get
  any-values k [] h = refl
  any-values k ((j, w) ∷ d) ((h, good), hs) = rw h (ground (arith, any-values k d hs))

  values-DistinctNames : (d : Dict String) → Lowered d → IsUnique d → DistinctNames (values d)
  unfolding values get
  values-DistinctNames [] h k = tt
  values-DistinctNames ((j, w) ∷ d) ((h, good), hs) (new, k) =
      (any-values (u.lower w) d hs ∙ rw⁻¹ h new, values-DistinctNames d hs k)

  dedupe-Lowered :
      (names : List String) (d : Dict String)
      → All IsName names
      → Lowered d × IsUnique d
      → Lowered (dedupe u d names) × IsUnique (dedupe u d names)
  unfolding dedupe set_default
  dedupe-Lowered [] d good h = h
  dedupe-Lowered (n ∷ ns) d (good, goods) (h, k) = elim (Bool-cases (has (u.lower n) d)) [
    | inl old ↦ rw old (dedupe-Lowered ns d goods (h, k))
    | inr new ↦
        rw new
          (dedupe-Lowered ns _ goods (put-Lowered n d good h new, put-IsUnique (u.lower n) n d k))
  ]

  has-dedupe :
      (k : String) (names : List String) (d : Dict String)
      → has k (dedupe u d names) ≡ (has k d || any (λ m. u.lower m == k) names)
  unfolding dedupe set_default
  has-dedupe k [] d = ground arith
  has-dedupe k (n ∷ ns) d =
      ground (
        arith,
        has-dedupe k ns (set_default u n d),
        get-put (u.lower n) k n d,
        eq_iff (u.lower n) k,
      )

  values-IsName : (d : Dict String) → Lowered d → All IsName (values d)
  unfolding values
  values-IsName [] h = tt
  values-IsName ((j, w) ∷ d) ((h, good), hs) = (good, values-IsName d hs)

  -- What the search relies on: a stripped ADOM, stripped device names of which no two differ only in
  -- case, a positive policy id and between 1 and 60 days.
  pub record WellFormed (r : LogRequest) : Type 0 where
    pub adom : IsName r.adom
    pub devices : All IsName r.devices
    pub distinct : DistinctNames r.devices
    pub policyid : pos 1 ≤ℤ r.policyid
    pub days : (pos 1 ≤ℤ r.days) × (r.days ≤ℤ pos 60)

  -- The names of `xs` are those of `ys`, up to case.
  abbrev pub SameNames : List String → List String → Type 0
  SameNames xs ys = (n : String) → any (λ m. u.lower m == n) xs ≡ any (λ m. u.lower m == n) ys

  check_rest-WellFormed :
      (adom : String) (devices policyid days : Option Json) (r : LogRequest)
      → IsName adom
      → check_rest u adom
          (devices_of devices)
          (int_between (pos 1) none policyid)
          (int_between (pos 1) (some (pos 60)) days)
        ≡ accepted r
      → WellFormed r
        × ((names : List String) × (devices_of devices ≡ some names) × SameNames r.devices names)
  unfolding check_rest get
  check_rest-WellFormed adom devices policyid days r good h =
      elim (Option-cases (devices_of devices)) [
        | inl e ↦ absurd (cc (rw e at h))
        | inr (names, e) ↦ elim (Option-cases (int_between (pos 1) none policyid)) [
          | inl e' ↦ absurd (cc (rw (e, e') at h))
          | inr (id, e') ↦ elim (Option-cases (int_between (pos 1) (some (pos 60)) days)) [
            | inl e'' ↦ absurd (cc (rw (e, e', e'') at h))
            | inr (n, e'') ↦
                let same : record {
                  adom = adom;
                  devices = values (dedupe u [] names);
                  policyid = id;
                  days = n;
                }
                    ≡ r =
                  cc (rw (e, e', e'') at h) in
                let names_good = devices_of-IsName devices names e in
                let (low, unique) = dedupe-Lowered names [] names_good (tt, tt) in
                rw (← same) (
                  (
                    record {
                      adom = good;
                      devices = values-IsName (dedupe u [] names) low;
                      distinct = values-DistinctNames (dedupe u [] names) low unique;
                      policyid = int_between-low (pos 1) policyid id e';
                      days = int_between-bounds (pos 1) (pos 60) days n e'';
                    },
                    (names, e, λ k. any-values k (dedupe u [] names) low ∙ has-dedupe k names []),
                  ))
          ]
        ]
      ]

  -- A request that is accepted has a stripped ADOM that is not blank, a positive policy id, between 1
  -- and 60 days, and stripped device names that are not blank and of which no two differ only in
  -- case; up to case they are the names that the body lists.
  pub validate_log_usage_request-WellFormed :
      (text : Option Json → String) (body : Dict Json) (r : LogRequest)
      → validate_log_usage_request u text body ≡ accepted r
      → WellFormed r
        × ((names : List String) × (devices_of (get "devices" body) ≡ some names)
            × SameNames r.devices names)
  unfolding validate_log_usage_request
  validate_log_usage_request-WellFormed text body r h =
      let adom = strip (text (get "adom" body)) in
      elim (Bool-cases (adom == "")) [
        | inl blank ↦ absurd (cc (rw blank at h))
        | inr filled ↦
            check_rest-WellFormed adom (get "devices" body) (get "policyid" body) (get "days" body)
              r (strip_idem (text (get "adom" body)), ground (arith, eq_iff adom "", filled))
              (rw filled at h)
      ]
