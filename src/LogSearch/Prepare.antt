-- ===== src/LogSearch/Prepare.antt =====
-- `api_search` of app/routes/log_search_routes.py up to the point where the client is made. A body is a
-- JSON object whose values are texts, `none` where a key is missing.
pub mod Asked
use Prim.Native.String.{◌++◌ as append}
use t_log.Shared.{
  ℕ, Bool, true, false, not, ◌&&◌, ◌||◌, Option, none, some, List, [], ◌∷◌, String, ◌==◌,
  if◌then◌else◌, default, keep, length, Result, ok, err, ◌>>=◌, value_error, key_error,
}
use t_log.Shared.Text.{Unicode, strip}
use t_log.Shared.Decimal.{Digits, decimal}
use t_log.Shared.Dict.{Dict, get, has}
use t_log.Shared.Sets.{eq_string, member}
use t_log.Groups.Access.{get_allowed_adoms}
use t_log.Sessions.{Session, Denied, App, tab_required, check_adom_access}
use t_log.Targets.{Value, text, Target, TargetsFile, list_targets, get_target}
use t_log.AppLog.{Entry, Log, app_log}
use t_log.FazErrors.{
  Failure, faz_error, search_timeout, request_error, other, summarize_connection_error, message,
}
use t_log.LogUsage.{Reply, got, raised}
use t_log.FazSearch.{Found}
use t_log.FazSearch.Filters.{Extra, build_filter_expression}
use t_log.LogSearch.{IpLibrary, parse_ip_entries, parse_port_entries}

pub record SearchBody : Type 0 where
  pub target : Option String
  pub start_time : Option String
  pub end_time : Option String
  pub source_ips : Option String
  pub destination_ips : Option String
  pub ports : Option String
  pub logtype : Option String
  pub device : Option String
  pub extra_filters : List Extra

-- The arguments of the search, before the times are made local.
pub record Query : Type 0 where
  pub logtype : String
  pub device : String
  pub filter_expression : String
  pub start_time : String
  pub end_time : String

-- The answers without a result: the 403 of `check_adom_access`, or a status and an error.
pub data Refusal : Type 0 where
  not_permitted : Refusal
  failed : ℕ → String → Refusal

-- What the checks before the search lead to: a warning in the log and an answer, or a query.
pub data Prepared : Type 0 where
  stop : String → Dict String → Refusal → Prepared
  query : Target → Query → Prepared

-- The clauses of the three boxes.
pub record Boxes : Type 0 where
  pub source : List String
  pub dest : List String
  pub port : List String

pub is_empty : List String → Bool
is_empty [] = true
is_empty (c ∷ cs) = false

-- `f"Target '{target_label}' not found"`
unfoldable pub not_found : String → String
not_found label = append "Target '" (append label "' not found")

-- The arguments of the search that the body gives, with their defaults.
unfoldable pub query_of : SearchBody → String → Query
query_of b expression = record {
  logtype = default b.logtype "traffic";
  device = default b.device "All_FortiGate";
  filter_expression = expression;
  start_time = default b.start_time "";
  end_time = default b.end_time "";
}

module _ (u : Unicode) (ip : IpLibrary) (d : Digits) where
  -- `parse_ip_entries(raw, field) if raw.strip() else []`
  ip_box : String → Option String → Result (List String)
  ip_box field box =
      let raw = default box "" in if strip raw == "" then ok [] else parse_ip_entries ip field u raw

  pub boxes : SearchBody → Result Boxes
  unfolding ip_box
  boxes b = do
    source ← ip_box "srcip" b.source_ips
    dest ← ip_box "dstip" b.destination_ips
    port ← parse_port_entries d u (default b.ports "")
    ok (record { source = source; dest = dest; port = port })

  invalid : String → Prepared
  invalid why = stop "Search rejected: invalid filter input" (("error", why) ∷ []) (failed 400 why)

  with_expression : Target → SearchBody → Result String → Result Prepared
  unfolding invalid
  with_expression t b (err (value_error why)) = ok (invalid why)
  with_expression t b (err e) = err e
  with_expression t b (ok expression) = ok (query t (query_of b expression))

  with_boxes : Target → SearchBody → Result Boxes → Result Prepared
  unfolding invalid with_expression is_empty
  with_boxes t b (err (value_error why)) = ok (invalid why)
  with_boxes t b (err e) = err e
  with_boxes t b (ok c) =
      if is_empty c.source && is_empty c.dest
      then ok (
          stop "Search rejected: no source or destination IP" []
            (failed 400 "At least one of source or destination IP is required"))
      else with_expression t b (build_filter_expression u c.source c.dest c.port b.extra_filters)

  with_target : String → SearchBody → Option Target → Result Prepared
  unfolding boxes with_boxes not_found
  with_target label b none =
      ok (stop "Search failed: target not found" [] (failed 404 (not_found label)))
  with_target label b (some t) =
      if default b.start_time "" == "" || default b.end_time "" == ""
      then ok (
          stop "Search rejected: missing start_time/end_time" []
            (failed 400 "start_time and end_time are required"))
      else with_boxes t b (boxes b)

  module _ (app : App) (path : String) (targets : TargetsFile) where
    -- The checks after the one on the ADOM.
    checked : String → SearchBody → Bool → Result Prepared
    unfolding with_target
    checked label b true = ok (stop "Search denied: ADOM access not permitted" [] not_permitted)
    checked label b false = with_target label b (get_target targets label)

    -- The part of `api_search` before the client is made.
    unfoldable pub prepare : Session → SearchBody → Result Prepared
    unfolding checked
    prepare s b =
        let label = default b.target "" in check_adom_access app path label s >>= checked label b
