-- ===== src/Sso/Trust.antt =====
-- Which tokens are believed, and that no token is of both kinds.
use t_log.Shared.{
  true, false, Option, none, some, List, [], ◌∷◌, String, ◌==◌, eq_refl, eq_iff, ◌≡◌, ◌⊎◌, refl, ap,
  ◌∙◌, any, arith, Bool-cases, inl, inr,
}
use t_log.Shared.Dict.{Dict, get, has, values}
use t_log.Shared.Json.{Json, str}
use t_log.Sso.{
  Decoded, claims, bad_signature, invalid, Libraries, load_keys, named_key, candidates, next_key,
  try_keys, decode_header, decode_token, user_of, or_none, truthy, verify_token, is_scope,
  service_of, verify_service_token,
}

module _ (lib : Libraries) where
  -- The claims come from decoding the token with a key of the list.
  abbrev DecodedBy : String → List String → Dict Json → Type 0
  DecodedBy token pems c =
      (pem : String) × (any (λ p. p == pem) pems ≡ true) × (lib.decode token pem ≡ claims c)

  next_key-some :
      (d : Decoded) (rest : Option (Dict Json)) (c : Dict Json)
      → next_key lib d rest ≡ some c
      → (d ≡ claims c) ⊎ (rest ≡ some c)
  unfolding next_key
  next_key-some (claims d) rest c h = inl (ap claims (cc h))
  next_key-some bad_signature rest c h = inr h
  next_key-some invalid rest c h = absurd (cc h)

  try_keys-some :
      (token : String) (pems : List String) (c : Dict Json)
      → try_keys lib token pems ≡ some c
      → DecodedBy token pems c
  unfolding try_keys
  try_keys-some token [] c h = absurd (cc h)
  try_keys-some token (pem ∷ pems) c h =
      elim (next_key-some (lib.decode token pem) (try_keys lib token pems) c h) [
        | inl here ↦ (pem, ground (arith, eq_refl pem), here)
        | inr later ↦
            let (p, known, decoded) = try_keys-some token pems c later in
            (p, ground (arith, known), decoded)
      ]

  get-values :
      (k : String) (d : Dict String) (v : String)
      → get k d ≡ some v
      → any (λ p. p == v) (values d) ≡ true
  unfolding get values
  get-values k [] v h = absurd (cc h)
  get-values k ((j, w) ∷ d) v h = elim (Bool-cases (j == k)) [
    | inl e ↦ let same : w ≡ v = cc (rw e at h) in rw same (ground (arith, eq_refl v))
    | inr e ↦ ground (arith, get-values k d v (rw e at h))
  ]

  named_key-values :
      (kid : String) (keys : Dict String) (o : Option String) (pem : String)
      → get kid keys ≡ o
      → any (λ p. p == pem) (named_key lib o (values keys)) ≡ true
      → any (λ p. p == pem) (values keys) ≡ true
  unfolding named_key
  named_key-values kid keys none pem e h = h
  named_key-values kid keys (some p) pem e h =
      let q : p ≡ pem = (eq_iff p pem).0 (ground (arith, h)) in
      get-values kid keys pem (e ∙ ap some q)

  candidates-values :
      (kid : Option Json) (keys : Dict String) (pem : String)
      → any (λ p. p == pem) (candidates lib kid keys) ≡ true
      → any (λ p. p == pem) (values keys) ≡ true
  unfolding candidates
  candidates-values (some (str kid)) keys pem h =
      named_key-values kid keys (get kid keys) pem refl h
  candidates-values _ keys pem h = h

  decode_header-some :
      (token : String) (keys : Dict String) (header : Option (Option Json)) (c : Dict Json)
      → decode_header lib token keys header ≡ some c
      → DecodedBy token (values keys) c
  unfolding decode_header
  decode_header-some token keys none c h = absurd (cc h)
  decode_header-some token keys (some kid) c h =
      let (pem, known, decoded) = try_keys-some token (candidates lib kid keys) c h in
      (pem, candidates-values kid keys pem known, decoded)

  -- The claims come from decoding with a key that the file holds.
  pub Trusted : List String → String → Dict Json → Type 0
  Trusted blocks token c = DecodedBy token (values (load_keys lib blocks [])) c

  decode_token-Trusted :
      (blocks : List String) (token : String) (c : Dict Json)
      → decode_token lib blocks token ≡ some c
      → Trusted blocks token c
  unfolding decode_token Trusted
  decode_token-Trusted blocks token c h = with_keys (load_keys lib blocks []) h
    where
      with_keys :
          (keys : Dict String)
          → (elim keys [
            | [] ↦ none
            | key ∷ rest ↦ decode_header lib token (key ∷ rest) (lib.header token)
          ])
            ≡ some c
          → DecodedBy token (values keys) c
      with_keys [] k = absurd (cc k)
      with_keys (key ∷ rest) k = decode_header-some token (key ∷ rest) (lib.header token) c k

  or_none-some : (o : Option Json) (v : Json) → or_none lib o ≡ some v → o ≡ some v
  unfolding or_none
  or_none-some none v h = absurd (cc h)
  or_none-some (some w) v h = elim (Bool-cases (truthy lib w)) [
    | inl e ↦ rw e at h
    | inr e ↦ absurd (cc (rw e at h))
  ]

  user_of-some :
      (o : Option (Dict Json)) (v : Json)
      → user_of lib o ≡ some v
      → (c : Dict Json) × (o ≡ some c) × (has "scope" c ≡ false) × (get "sub" c ≡ some v)
  unfolding user_of
  user_of-some none v h = absurd (cc h)
  user_of-some (some c) v h = elim (Bool-cases (has "scope" c)) [
    | inl e ↦ absurd (cc (rw e at h))
    | inr e ↦ (c, refl, e, or_none-some (get "sub" c) v (rw e at h))
  ]

  is_scope-some :
      (expected : String) (o : Option Json)
      → is_scope lib expected o ≡ true
      → o ≡ some (str expected)
  unfolding is_scope
  is_scope-some expected (some (str s)) h = ap (λ x. some (str x)) ((eq_iff s expected).0 h)
  is_scope-some expected _ h = absurd (cc h)

  service_of-some :
      (expected : String) (o : Option (Dict Json)) (c : Dict Json)
      → service_of lib expected o ≡ some c
      → (o ≡ some c) × (get "scope" c ≡ some (str expected))
  unfolding service_of
  service_of-some expected none c h = absurd (cc h)
  service_of-some expected (some d) c h =
      elim (Bool-cases (is_scope lib expected (get "scope" d))) [
        | inl e ↦
            let same : d ≡ c = cc (rw e at h) in
            (ap some same, rw (← same) (is_scope-some expected (get "scope" d) e))
        | inr e ↦ absurd (cc (rw e at h))
      ]

  -- A user is believed only where the token decodes with a key that the file holds, to claims without
  -- a scope that name the user.
  pub verify_token-Trusted :
      (blocks : List String) (token : String) (user : Json)
      → verify_token lib blocks token ≡ some user
      → (c : Dict Json) × Trusted blocks token c
        × (has "scope" c ≡ false)
        × (get "sub" c ≡ some user)
  unfolding verify_token
  verify_token-Trusted blocks token user h =
      let (c, decoded, unscoped, named) = user_of-some (decode_token lib blocks token) user h in
      (c, decode_token-Trusted blocks token c decoded, unscoped, named)

  -- A service is believed only where the token decodes with a key that the file holds, to claims with
  -- the expected scope; a token that logs a user in is believed for no service.
  pub verify_service_token-Trusted :
      (blocks : List String) (token expected : String) (c : Dict Json)
      → verify_service_token lib blocks token expected ≡ some c
      → Trusted blocks token c
        × (get "scope" c ≡ some (str expected))
        × (verify_token lib blocks token ≡ none)
  unfolding verify_service_token verify_token user_of
  verify_service_token-Trusted blocks token expected c h =
      let (decoded, scope) = service_of-some expected (decode_token lib blocks token) c h in
      (decode_token-Trusted blocks token c decoded, scope, rw (decoded, scope) refl)
