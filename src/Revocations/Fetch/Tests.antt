-- ===== src/Revocations/Fetch/Tests.antt =====
-- Responses that fit, that are too large, and that come too slowly.
use t_log.Shared.{
  ℕ, ◌*◌, false, Option, none, some, List, [], ◌∷◌, String, ◌==◌, ◌≡◌, refl, if◌then◌else◌,
}
use t_log.Shared.Text.{ascii_with, Unicode, strip}
use t_log.Shared.Dict.{Dict, get}
use t_log.Shared.Json.{null}
use t_log.Revocations.Fetch.{
  Fetched, whole, too_slow, too_large, broken, read_body, fetch, session_checker_from_env,
}
use t_log.Revocations.Fetch.Bounds.{Ends, read_body-Ends}

abbrev steady : ℕ → ℕ
steady n = 0

abbrev jump : ℕ → ℕ
jump n = n * 10

abbrev two : ℕ → Option ℕ
two n = some 2

abbrev bytes : List ℕ
bytes = 1 ∷ 2 ∷ 3 ∷ []

abbrev plain : Unicode
plain = ascii_with (λ s. if s == "FALSE" then "false" else s) (λ s. s)

abbrev environ : Dict String
environ =
    ("TSUITE_REVOCATIONS_URL", " https://suite// ")
    ∷ ("TSUITE_REVOCATIONS_TOKEN", "key")
    ∷ ("TSUITE_REVOCATIONS_VERIFY_TLS", "FALSE")
    ∷ []

fetch_run : Unit {0}
unfolding fetch session_checker_from_env get strip
fetch_run = tt

fetch_tests :
    (read_body 3 steady 5 two 5 0 [] bytes ≡ some (whole bytes))
    × (read_body 2 steady 5 two 4 0 [] bytes ≡ some too_large)
    × (read_body 3 jump 5 two 5 0 [] bytes ≡ some too_slow)
    × (read_body 3 steady 5 (λ n. none) 5 0 [] bytes ≡ some broken)
    × (fetch 3 steady 5 two (λ b. some null) (some bytes) ≡ some null)
    × (fetch 2 steady 5 two (λ b. some null) (some bytes) ≡ none)
    × (session_checker_from_env plain environ
        ≡ some (record { url = "https://suite/revocations"; token = "key"; verify_tls = false }))
    × (session_checker_from_env plain [] ≡ none)
unfolding fetch_run
fetch_tests = (refl, refl, refl, refl, refl, refl, refl, refl)

read_body-Ends_example :
    (end : Fetched) × (read_body 3 steady 5 two 5 0 [] bytes ≡ some end)
    × Ends 3 steady 5 two bytes end
read_body-Ends_example = read_body-Ends 3 steady 5 two bytes
