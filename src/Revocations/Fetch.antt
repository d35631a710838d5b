-- ===== src/Revocations/Fetch.antt =====
-- `make_http_fetch` and `session_checker_from_env` of app/tsuite_adapter.py: how the list of
-- revocations is read from 4tSuite. A response is its bytes; a read gives at most as many as it is
-- asked for, at least one of them if it is asked for some, and none at the end. The clock is one reading for each time it is read.
pub mod Bounds
mod Tests
use Prim.Native.Char.{code}
use Prim.Native.String.{◌++◌ as append}
use t_log.Shared.{
  ℕ, zero, suc, ◌+◌, ◌-◌, ◌*◌, min, max, Bool, true, false, ◌||◌, Option, none, some, List, [], ◌∷◌,
  ◌++◌, String, ◌==◌, if◌then◌else◌, default, ltb, nat_eq, length, take, drop, not,
}
use t_log.Shared.Text.{Unicode, strip}
use t_log.Shared.Dict.{Dict, get}
use t_log.Shared.Json.{Json}

-- How the loop ends: the whole body, or one of the exceptions TimeoutError, ValueError, or that of a
-- read.
pub data Fetched : Type 0 where
  whole : List ℕ → Fetched
  too_slow too_large broken : Fetched

abbrev pub chunk_size : ℕ
chunk_size = 8192

-- `_MAX_BODY`
abbrev pub max_body_bytes : ℕ
max_body_bytes = 1024 * 1024

-- `response.read1(limit)` where `size` bytes are there, at least one; with the limit 0 it gives none.
abbrev pub count_of : ℕ → ℕ → ℕ
count_of size limit = min (max 1 size) limit

is_end : List ℕ → Bool
is_end [] = true
is_end (b ∷ bytes) = false

-- `size n` is what the n-th read finds, none where it raises.
module _ (max_body : ℕ) (clock : ℕ → ℕ) (timeout : ℕ) (size : ℕ → Option ℕ) where
  abbrev pub deadline : ℕ
  deadline = clock 0 + 2 * timeout

  -- One read, where `next` goes on with the body and the rest of the response.
  take_chunk : (List ℕ → List ℕ → Option Fetched) → List ℕ → List ℕ → Option ℕ → Option Fetched
  unfolding is_end
  take_chunk next body rest none = some broken
  take_chunk next body rest (some found) =
      let n = count_of found (min chunk_size (max_body + 1 - length body)) in
      if is_end (take n rest) then some (whole body) else next (body ++ take n rest) (drop n rest)

  -- The loop before its n-th read; none is out of fuel.
  pub read_body : ℕ → ℕ → List ℕ → List ℕ → Option Fetched
  unfolding take_chunk
  read_body zero n body rest = none
  read_body (suc fuel) n body rest =
      let next = take_chunk (read_body fuel (suc n)) body rest (size n) in
      if ltb max_body (length body)
      then some too_large
      else if ltb deadline (clock (suc n))
      then some too_slow
      else next

  loaded : (List ℕ → Option Json) → Option Fetched → Option Json
  loaded loads (some (whole body)) = loads body
  loaded loads _ = none

  -- `fetch()`: none is any exception. `response` is none where `opener.open` raises.
  pub fetch : (List ℕ → Option Json) → Option (List ℕ) → Option Json
  unfolding read_body loaded
  fetch loads none = none
  fetch loads (some response) = loaded loads (read_body (suc (suc max_body)) 0 [] response)

-- `suite_url.rstrip("/")`
rstrip_slash : String → String
rstrip_slash String.[] = ""
rstrip_slash (String.◌∷◌ c s) =
    let rest = rstrip_slash s in
    if nat_eq (code c) 47 then (if rest == "" then "" else String.◌∷◌ c rest) else String.◌∷◌ c rest

-- What the checker fetches with.
pub record Source : Type 0 where
  pub url : String
  pub token : String
  pub verify_tls : Bool

pub revocations_url : String → String
unfolding rstrip_slash
revocations_url suite_url = append (rstrip_slash suite_url) "/revocations"

-- `session_checker_from_env`; no checker where the address or the token is missing.
pub session_checker_from_env : Unicode → Dict String → Option Source
unfolding revocations_url
session_checker_from_env u environ =
    let url = strip (default (get "TSUITE_REVOCATIONS_URL" environ) "") in
    let token = strip (default (get "TSUITE_REVOCATIONS_TOKEN" environ) "") in
    let verify = u.lower (strip (default (get "TSUITE_REVOCATIONS_VERIFY_TLS" environ) "true")) in
    if url == "" || token == ""
    then none
    else some (record {
      url = revocations_url url;
      token = token;
      verify_tls = not (verify == "false" || (verify == "0" || verify == "no"));
    })
