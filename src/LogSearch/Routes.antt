-- ===== src/LogSearch/Routes.antt =====
-- app/routes/log_search_routes.py: the search of Log Search after the checks of `Prepare`, the route
-- around it, and the lists of targets, fields and devices. A client is what its calls return.
pub mod Access
mod Tests
pub mod Offered
pub mod Stored
use Prim.Native.String.{◌++◌ as append}
use t_log.Shared.{
  ℕ, Bool, true, false, not, ◌&&◌, ◌||◌, Option, none, some, List, [], ◌∷◌, ◌++◌, String, ◌==◌,
  if◌then◌else◌, default, keep, length, Result, ok, err, ◌>>=◌, value_error, key_error,
}
use t_log.Shared.Text.{Unicode, strip}
use t_log.Shared.Decimal.{Digits, decimal}
use t_log.Shared.Dict.{Dict, get, has}
use t_log.Shared.Sets.{eq_string, member}
use t_log.Groups.Access.{get_allowed_adoms}
use t_log.Sessions.{Session, Denied, App, tab_required, check_adom_access}
use t_log.Targets.{Value, text, Target, TargetsFile, list_targets, get_target}
use t_log.AppLog.{Entry, Log, app_log}
use t_log.FazErrors.{
  Failure, faz_error, search_timeout, request_error, other, summarize_connection_error, message,
}
use t_log.LogUsage.{Reply, got, raised}
use t_log.FazSearch.{Found}
use t_log.FazSearch.Filters.{Extra, build_filter_expression}
use t_log.LogSearch.{IpLibrary, parse_ip_entries, parse_port_entries}
use t_log.LogSearch.Prepare.{
  SearchBody, Query, Refusal, not_permitted, failed, Prepared, stop, query, not_found, prepare,
}

-- What `_client_for` reads of a target.
pub record Connection : Type 0 where
  pub host : Value
  pub token : Value
  pub adom : Value

-- A target without a host raises a KeyError, which the handlers report as a failed connection.
pub client_for : Target → Reply Connection
client_for t = elim (get "host" t) [
  | none ↦ raised (request_error other)
  | some host ↦ got (record {
    host = host;
    token = default (get "token" t) (text "");
    adom = default (get "adom" t) (text "root");
  })
]

-- The two calls of a client that the search makes; `local_time_range` raises nothing.
pub record SearchClient : Type 0 where
  pub local_time_range : String → String → String × String
  pub search_logs : Query → Reply Found

pub data Answer : Type 0 where
  refused : Refusal → Answer
  done : Found → Answer

module _ (u : Unicode) (ip : IpLibrary) (d : Digits) where
  -- One entry of the component "log_search", at the time `now`. The log has these alone: the error that
  -- a load of unreadable targets notes, `log_load`, is left out here.
  note : String → String → Dict String → String → Log → Log
  note level message extra now l =
      app_log u level
        (record {
          ts = now;
          level = level;
          component = "log_search";
          message = message;
          extra = extra;
        })
        l

  local_text : Option (String × String) → String
  local_text none = "None..None"
  local_text (some (start, end)) = append start (append ".." end)

  -- The fields of an entry about a query.
  about : String → String → Query → Option (String × String) → Dict String → Dict String
  unfolding local_text
  about user label q local rest =
      ("by", user)
      ∷ ("target", label)
      ∷ ("filter_expression", q.filter_expression)
      ∷ (rest ++ ("appliance_local", local_text local) ∷ [])

  -- What the search returned or raised, and the three handlers.
  finish :
      String → String → Query → Option (String × String) → Reply Found → String → Log → Log × Answer
  unfolding note about
  finish user label q local (got r) now l = (
    note "INFO" "Search completed"
        (about user label q local (
          ("rows", decimal (length r.rows))
          ∷ ("requested_utc", append q.start_time (append ".." q.end_time))
          ∷ []))
        now l,
    done r,
  )
  finish user label q local (raised (search_timeout why)) now l = (
    note "WARN" "Search timed out" (about user label q local (("error", why) ∷ [])) now l,
    refused (failed 504 "Search is taking too long — narrow the time range or add more filters."),
  )
  finish user label q local (raised (faz_error why)) now l = (
    note "WARN" "Search failed: FortiAnalyzer error"
        (about user label q local (("error", why) ∷ [])) now l,
    refused (failed 502 why),
  )
  finish user label q local (raised (request_error e)) now l =
      let why = summarize_connection_error e in
      (
        note "WARN" "Search failed: connection error"
            (about user label q local (("error", why) ∷ [])) now l,
        refused (failed 502 why),
      )

  -- The search on the appliance's own clock.
  perform :
      (Connection → SearchClient)
      → String
      → String
      → Query
      → Reply Connection
      → String
      → Log
      → Log × Answer
  unfolding finish
  perform connect user label q (raised e) now l = finish user label q none (raised e) now l
  perform connect user label q (got c) now l =
      let client = connect c in
      let (start, end) = client.local_time_range q.start_time q.end_time in
      finish user label q (some (start, end))
        (client.search_logs (record q { start_time = start; end_time = end })) now l

  answer : (Connection → SearchClient) → String → String → Prepared → String → Log → Log × Answer
  unfolding note perform client_for
  answer connect user label (stop message extra a) now l =
      (note "WARN" message (("by", user) ∷ ("target", label) ∷ extra) now l, refused a)
  answer connect user label (query t q) now l = perform connect user label q (client_for t) now l

  -- What the server holds around a request.
  module _ (app : App) (path : String) (targets : TargetsFile) (connect : Connection → SearchClient)
      (now : String) where
    pub api_search : Session → SearchBody → Log → Result (Log × Answer)
    unfolding prepare answer
    api_search s b l = do
      prepared ← prepare u ip d app path targets s b
      ok (answer connect (default s.user "") (default b.target "") prepared now l)

    -- The route: `none` in place of an answer is what the decorator refused.
    pub search_if :
        SearchBody → Log → Session × Option Denied → Result (Session × Log × Option Answer)
    unfolding api_search
    search_if b l (s, some denied) = ok (s, l, none)
    search_if b l (s, none) = do (l', a) ← api_search s b l; ok (s, l', some a)

    pub search_route : Session → SearchBody → Log → Result (Session × Log × Option Answer)
    unfolding search_if
    search_route s b l = do checked ← tab_required app path "log_search" s; search_if b l checked

-- One item of the answer of `api_targets`.
pub record Choice : Type 0 where
  pub label : Value
  pub host : Value
  pub adom : Value

-- `t["label"]`, which raises a KeyError where the key is missing
required : String → Target → Result Value
required key t = elim (get key t) [ none ↦ err (key_error key) | some v ↦ ok v ]

choice_of : Target → Result Choice
unfolding required
choice_of t = do
  label ← required "label" t
  host ← required "host" t
  ok (record { label = label; host = host; adom = default (get "adom" t) (text "root") })

pub choices_of : List Target → Result (List Choice)
unfolding choice_of
choices_of [] = ok []
choices_of (t ∷ ts) = do c ← choice_of t; cs ← choices_of ts; ok (c ∷ cs)

-- `t.get("label") in allowed`
label_in : List String → Option Value → Bool
label_in allowed (some (text label)) = member label allowed
label_in allowed _ = false

pub visible : Option (List String) → List Target → List Target
unfolding label_in
visible none targets = targets
visible (some allowed) targets = keep (λ t. label_in allowed (get "label" t)) targets

pub api_targets : App → TargetsFile → Session → Result (List Choice)
unfolding visible choices_of
api_targets app targets s = do
  allowed ← get_allowed_adoms app.groups app.users_file (default s.user "") s.ad_groups s.role
  choices_of (visible allowed (list_targets targets))

-- The common shape of `api_fields` and `api_devices`: `call` is the call of the client.
pub data Listing (A : Type 0) : Type 0 where
  no_listing : Refusal → Listing A
  listed : A → Listing A

module _ {A : Type 0} (call : Connection → Reply A) where
  listing_of : Reply A → Listing A
  listing_of (raised e) = no_listing (failed 502 (message e))
  listing_of (got a) = listed a

  call_on : Reply Connection → Listing A
  unfolding listing_of
  call_on (raised e) = no_listing (failed 502 (message e))
  call_on (got c) = listing_of (call c)

  list_target : String → Option Target → Listing A
  unfolding call_on client_for not_found
  list_target label none = no_listing (failed 404 (not_found label))
  list_target label (some t) = call_on (client_for t)

  pub api_listing : App → String → TargetsFile → Session → String → Result (Listing A)
  unfolding list_target
  api_listing app path targets s label = do
    denied ← check_adom_access app path label s
    if denied
        then ok (no_listing not_permitted)
        else ok (list_target label (get_target targets label))
