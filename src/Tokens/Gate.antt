-- ===== src/Tokens/Gate.antt =====
-- Who passes the gate of the external API.
use Prim.Native.String.{◌++◌ as append}
use t_log.Shared.{
  Bool, false, not, ◌&&◌, ◌||◌, List, [], ◌∷◌, String, ◌==◌, ◌≡◌, refl, sym, ◌∙◌, nat_eq, length,
  keep, any, any-append, any-keep, length-keep-eq_iff, any-not-not, contents, load_or_default,
  is_some, arith, Bool-cases, inl, inr, none, All,
}
use t_log.Shared.Text.{strip, starts_with, drop_chars, Unicode}
use t_log.Tokens.{
  Token, TokensFile, load, token_prefix, create_token, has_id, revoke_token, accepts, first_match,
  safe, safe_all, list_tokens, validate_token, SettingsFile, get_setting, authenticate, gate,
}

any-unless :
    (p q : Token → Bool) (ts : List Token)
    → any p ts ≡ false
    → any (λ t. not (p t) && q t) ts ≡ any q ts
any-unless p q [] h = refl
any-unless p q (t ∷ ts) h = ground (arith, any-unless p q ts, h)

is_some-first_match :
    (h : String) (ts : List Token) → is_some (first_match h ts) ≡ any (accepts h) ts
unfolding first_match
is_some-first_match h [] = refl
is_some-first_match h (t ∷ ts) = ground (arith, is_some-first_match h ts)

load-contents : (ts : List Token) → load (contents ts) ≡ ts
unfolding load load_or_default
load-contents ts = refl

module _ (hash : String → String) where
  -- A stored token accepts the text.
  abbrev pub accepted_by : String → List Token → Bool
  accepted_by raw = any (accepts (hash raw))

  is_some-validate_token :
      (raw : String) (f : TokensFile)
      → is_some (validate_token hash raw f) ≡ (not (raw == "") && accepted_by raw (load f))
  unfolding validate_token
  is_some-validate_token raw f = ground (arith, is_some-first_match (hash raw) (load f))

  -- After a token was created its text is accepted, and another text is accepted exactly when it was
  -- before or has the same hash. The texts are not empty.
  pub validate_token-create_token :
      (hex uuid name raw : String) (f : TokensFile)
      → (raw == "") ≡ false
      → is_some (validate_token hash raw (create_token hash hex uuid name f).0)
        ≡ (hash (append token_prefix hex) == hash raw || is_some (validate_token hash raw f))
  unfolding create_token
  validate_token-create_token hex uuid name raw f filled =
      rw (is_some-validate_token, is_some-validate_token, load-contents, filled, any-append)
        (ground arith)

  -- After an identifier was revoked, a text that is not empty is accepted exactly when a stored token
  -- with another identifier accepts it.
  pub validate_token-revoke_token :
      (token_id raw : String) (f : TokensFile)
      → (raw == "") ≡ false
      → is_some (validate_token hash raw (revoke_token token_id f).0)
        ≡ any (λ t. not (has_id token_id t) && accepts (hash raw) t) (load f)
  unfolding revoke_token
  validate_token-revoke_token token_id raw f filled =
      rw (is_some-validate_token, filled)
        (elim (Bool-cases (nat_eq (length rest) (length (load f)))) [
          | inl same ↦
              let none_has =
                (length-keep-eq_iff (λ t. not (has_id token_id t)) (load f)).0
                  (ground (arith, same)) in
              rw same (
                sym (
                  any-unless (has_id token_id) (accepts (hash raw)) (load f)
                    (sym (any-not-not (has_id token_id) (load f)) ∙ none_has)))
          | inr fewer ↦ rw (fewer, load-contents) (any-keep _ _ (load f))
        ])
    where
      rest : List Token
      rest = keep (λ t. not (has_id token_id t)) (load f)

  -- A request passes the gate exactly when the external API is enabled, the header begins with
  -- "bearer " in any case, and the text after it, stripped and not empty, is accepted by an enabled
  -- token.
  pub gate_lem :
      (u : Unicode) (settings : SettingsFile) (tokens : TokensFile) (auth : String)
      → not (is_some (gate hash u settings tokens auth)) ≡ (
          get_setting "external_api_enabled" false settings
          && (starts_with (u.lower auth) "bearer "
              && (not (strip (drop_chars 7 auth) == "")
                  && accepted_by (strip (drop_chars 7 auth)) (load tokens))))
  unfolding gate authenticate
  gate_lem u settings tokens auth =
      ground (arith, is_some-validate_token (strip (drop_chars 7 auth)) tokens)

-- What the two functions hand out holds no hash.
pub create_token-hash :
    (hash : String → String) (hex uuid name : String) (f : TokensFile)
    → (create_token hash hex uuid name f).1.1.token_hash ≡ none
unfolding create_token safe
create_token-hash hash hex uuid name f = refl

safe_all-hash : (ts : List Token) → All (λ (t : Token). t.token_hash ≡ none) (safe_all ts)
unfolding safe_all safe
safe_all-hash [] = tt
safe_all-hash (t ∷ ts) = (refl, safe_all-hash ts)

pub list_tokens-hash : (f : TokensFile) → All (λ (t : Token). t.token_hash ≡ none) (list_tokens f)
unfolding list_tokens
list_tokens-hash f = safe_all-hash (load f)
