-- ===== src/FazErrors.antt =====
-- app/faz_client.py: the errors of a FortiAnalyzer call and their short labels.
use Prim.Native.String.{String}
use t_log.Shared.{Bool, ◌||◌, if◌then◌else◌, ◌≡◌, refl}
use t_log.Shared.Text.{starts_with}

-- The classes of `requests.exceptions` that the code tells apart, the most specific one.
pub data RequestError : Type 0 where
  connect_timeout ssl_error timeout other : RequestError
  connection_error : String → RequestError

-- What a call raises: a `FAZError` or its subclass `FAZSearchTimeout` with its text, or a request
-- error.
pub data Failure : Type 0 where
  faz_error search_timeout : String → Failure
  request_error : RequestError → Failure

-- `t in s`
unfoldable pub contains : String → String → Bool
contains t String.[] = starts_with String.[] t
contains t (String.◌∷◌ c s) = starts_with (String.◌∷◌ c s) t || contains t s

-- `summarize_connection_error`
unfoldable pub summarize_connection_error : RequestError → String
unfolding contains starts_with
summarize_connection_error connect_timeout = "Connection timed out"
summarize_connection_error ssl_error = "TLS/SSL error"
summarize_connection_error (connection_error text) =
    if contains "Connection refused" text
    then "Connection refused"
    else if contains "Name or service not known" text || contains "nodename nor servname" text
    then "DNS resolution failed"
    else "Unable to connect"
summarize_connection_error timeout = "Request timed out"
summarize_connection_error other = "Connection failed"

-- `summarize_connection_error(exc) if isinstance(exc, RequestException) else str(exc)`
unfoldable pub message : Failure → String
message (faz_error text) = text
message (search_timeout text) = text
message (request_error e) = summarize_connection_error e

refused :
    message (request_error (connection_error "HTTPSConnection: [Errno 111] Connection refused"))
    ≡ "Connection refused"
unfolding message summarize_connection_error
refused = refl
