-- ===== src/Sso/Tests.antt =====
-- Tokens of both kinds under two keys, and the theorems on them.
use t_log.Shared.{false, none, some, List, [], ◌∷◌, String, ◌==◌, ◌≡◌, refl, if◌then◌else◌}
use t_log.Shared.Dict.{Dict, get, put, has, values}
use t_log.Shared.Json.{Json, str}
use t_log.Sso.{claims, bad_signature, Libraries, load_keys, verify_token, verify_service_token}
use t_log.Sso.Trust.{Trusted, verify_token-Trusted, verify_service_token-Trusted}

abbrev user_claims : Dict Json
user_claims = ("sub", str "ann") ∷ []

abbrev service_claims : Dict Json
service_claims = ("sub", str "ann") ∷ ("scope", str "groups") ∷ []

-- "new" signed both tokens; the header of the second one names no known key.
abbrev lib : Libraries
lib = record {
  key_id = λ pem. if pem == "bad" then none else some pem;
  header = λ token. if token == "login" then some (some (str "new")) else some (some (str "x"));
  decode = λ token pem.
      if pem == "new"
      then claims (if token == "login" then user_claims else service_claims)
      else bad_signature;
}

abbrev bundle : List String
bundle = "old" ∷ "bad" ∷ "new" ∷ []

sso_run : Unit {0}
unfolding verify_token verify_service_token load_keys get put values
sso_run = tt

sso_tests :
    (verify_token lib bundle "login" ≡ some (str "ann"))
    × (verify_token lib bundle "service" ≡ none)
    × (verify_service_token lib bundle "service" "groups" ≡ some service_claims)
    × (verify_service_token lib bundle "service" "health" ≡ none)
    × (verify_service_token lib bundle "login" "groups" ≡ none)
    × (verify_token lib [] "login" ≡ none)
unfolding sso_run
sso_tests = (refl, refl, refl, refl, refl, refl)

verify_token-Trusted_example :
    (c : Dict Json) × Trusted lib bundle "login" c
    × (has "scope" c ≡ false)
    × (get "sub" c ≡ some (str "ann"))
unfolding sso_run
verify_token-Trusted_example = verify_token-Trusted lib bundle "login" (str "ann") refl

verify_service_token-Trusted_example :
    Trusted lib bundle "service" service_claims
    × (get "scope" service_claims ≡ some (str "groups"))
    × (verify_token lib bundle "service" ≡ none)
unfolding sso_run
verify_service_token-Trusted_example =
    verify_service_token-Trusted lib bundle "service" "groups" service_claims refl
