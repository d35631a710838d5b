-- ===== src/LogUsage/Answer.antt =====
-- The end of `_run_log_usage_search`: what is left over, the status, and the sorted answer.
pub mod Report
use t_log.Shared.{
  ℕ, Bool, true, false, not, ◌&&◌, Option, List, [], ◌∷◌, String, ◌==◌, leb, if◌then◌else◌, keep,
}
use t_log.Shared.Int.{ℤ, leb_ℤ}
use t_log.Shared.Text.{Unicode}
use t_log.LogUsage.Request.{LogRequest}
use t_log.Shared.Dict.{Dict, put}
use t_log.Shared.Sort.{sorted, text_le}
use t_log.LogUsage.{Client, Search, start, set_all, is_empty, search_targets}

-- "skipped: request deadline exceeded" for everything that was not attempted.
skip_late : Search → Search
unfolding set_all
skip_late s =
    if s.deadline_hit
    then record s {
      remaining = [];
      device_errors = set_all "skipped: request deadline exceeded" s.remaining s.device_errors;
    }
    else s

pub record Response : Type 0 where
  pub policyid : ℤ
  pub days : ℤ
  pub time_range : Option (String × String)
  pub srcips : List String
  pub dstips : List String
  pub dstports : List ℤ
  pub log_count : ℕ
  pub truncated : Bool
  pub devices_queried : List String
  pub devices_not_found : List String
  pub device_errors : Dict String

-- The status of the answer; a 502 has the errors that its text joins.
pub data Outcome : Type 0 where
  no_target : String → Outcome
  bad_gateway : Dict String → Outcome
  answered : Response → Outcome

-- `response`
report : LogRequest → Search → Response
report req s = record {
  policyid = req.policyid;
  days = req.days;
  time_range = s.time_range;
  srcips = sorted text_le s.srcips;
  dstips = sorted text_le s.dstips;
  dstports = sorted leb_ℤ s.dstports;
  log_count = s.log_count;
  truncated = s.truncated;
  devices_queried = sorted text_le s.devices_queried;
  devices_not_found = sorted text_le s.remaining;
  device_errors = s.device_errors;
}

-- What follows the loops: a 502 when nothing was queried and something failed.
respond : LogRequest → Search → Outcome
unfolding is_empty report
respond req s =
    if is_empty s.devices_queried && not (is_empty s.device_errors)
    then bad_gateway s.device_errors
    else answered (report req s)

-- One entry of `list_targets()`, with the client that the factory makes of it for this request.
pub record Source : Type 0 where
  pub adom : String
  pub client : Client

-- `_match_targets_for_adom`
pub match_targets_for_adom : Unicode → String → List Source → List Source
match_targets_for_adom u adom = keep (λ t. u.lower t.adom == u.lower adom)

clients : List Source → List Client
clients [] = []
clients (t ∷ ts) = t.client ∷ clients ts

unfoldable pub run_log_usage_search : (ℕ → Bool) → Unicode → List Source → LogRequest → Outcome
unfolding is_empty match_targets_for_adom clients start skip_late respond
run_log_usage_search late u sources req =
    let targets = match_targets_for_adom u req.adom sources in
    if is_empty targets
    then no_target req.adom
    else respond req (skip_late (search_targets late u (clients targets) (start req.devices)))
