-- ===== src/Tokens/Tests.antt =====
-- The gate of the external API on concrete requests.
use t_log.Shared.{
  true, false, not, ◌&&◌, none, some, [], ◌∷◌, String, ◌==◌, ◌≡◌, refl, is_some, contents, missing,
  if◌then◌else◌,
}
use t_log.Shared.Text.{ascii_with, strip, starts_with, drop_chars, Unicode}
use t_log.Shared.Dict.{get, put, put_all}
use t_log.Tokens.{
  TokensFile, load, create_token, revoke_token, validate_token, get_setting, set_setting,
  unauthorized, disabled, gate,
}
use t_log.Tokens.Gate.{accepted_by, gate_lem}

abbrev plain : Unicode
plain = ascii_with (λ s. if s == "Bearer 4tl_ab" then "bearer 4tl_ab" else s) (λ s. s)

abbrev reversed : String → String
reversed s = if s == "4tl_ab" then "h1" else "h2"

abbrev tokens : TokensFile
tokens =
    contents
      (record { id = some "1"; name = some "exec"; token_hash = some "h1"; enabled = none } ∷ [])

gate_run : Unit {0}
unfolding gate validate_token create_token revoke_token set_setting get_setting get put put_all
    strip drop_chars starts_with load
gate_run = tt

gate_tests :
    (gate reversed plain (set_setting "external_api_enabled" true missing) tokens "Bearer 4tl_ab"
      ≡ none)
    × (gate reversed plain missing tokens "Bearer 4tl_ab" ≡ some disabled)
    × (gate reversed plain (set_setting "external_api_enabled" true missing) tokens "4tl_ab"
        ≡ some unauthorized)
    × (is_some (validate_token reversed "4tl_ab" (revoke_token "1" tokens).0) ≡ false)
unfolding gate_run
gate_tests = (refl, refl, refl, refl)

gate_lem_example : not (is_some (gate reversed plain missing tokens "Bearer 4tl_ab")) ≡ (
    get_setting "external_api_enabled" false missing
    && (starts_with (plain.lower "Bearer 4tl_ab") "bearer "
        && (not (strip (drop_chars 7 "Bearer 4tl_ab") == "")
            && accepted_by reversed (strip (drop_chars 7 "Bearer 4tl_ab")) (load tokens))))
gate_lem_example = gate_lem reversed plain missing tokens "Bearer 4tl_ab"
