-- ===== src/Targets.antt =====
-- app/faz_targets.py: the list of FortiAnalyzer targets behind faz_targets.json, and the masking of
-- a target in app/routes/admin_routes.py. A target is a JSON object that may be edited by hand, so
-- it is kept as a dictionary of values. What a load writes to the log is `log_load`, beside the values.
pub mod Entries
pub mod Lookup
pub mod Store
mod Tests
use t_log.Shared.{
  Bool, true, false, not, ◌&&◌, ◌||◌, Option, none, some, List, [], ◌∷◌, ◌++◌, String, ◌==◌,
  if◌then◌else◌, default, is_some, keep, any, map, length, nat_eq, value_error, Result, ok, err,
  File, missing, malformed, contents, load_or_default,
}
use t_log.Shared.Text.{Unicode, strip}
use t_log.AppLog.{Entry, Log, app_log}
use t_log.Shared.Dict.{Dict, get, put, remove, has, put_all, pick}
use t_log.Shared.Sets.{eq_string, member}

-- The JSON values of a target's fields.
pub data Value : Type 0 where
  text : String → Value
  flag : Bool → Value
  null : Value

-- `bool(v)`
abbrev pub truthy : Value → Bool
truthy (text s) = not (s == "")
truthy (flag b) = b
truthy null = false

abbrev pub Target : Type 0
Target = Dict Value

abbrev pub TargetsFile : Type 0
TargetsFile = File (List Target)

abbrev pub snmp_fields : List String
snmp_fields =
    "snmp_user" ∷ "snmp_auth_key" ∷ "snmp_priv_key" ∷ "snmp_auth_protocol" ∷ "snmp_priv_protocol"
    ∷ []

-- `t.setdefault("threat_poll_enabled", True)`
pub with_default : Target → Target
with_default t = if has "threat_poll_enabled" t then t else put "threat_poll_enabled" (flag true) t

pub load : TargetsFile → List Target
unfolding load_or_default with_default
load f = map with_default (load_or_default [] f)

-- The entry for a file that cannot be read; the text of the exception, its end, is left out.
abbrev pub load_error : String → Entry
load_error now = record {
  ts = now;
  level = "ERROR";
  component = "faz_targets";
  message = "Failed to load faz_targets.json: ";
  extra = [];
}

-- The log after a load.
unfoldable pub log_load : Unicode → String → TargetsFile → Log → Log
log_load u now missing log = log
log_load u now malformed log = app_log u "ERROR" (load_error now) log
log_load u now (contents targets) log = log

unfoldable pub list_targets : TargetsFile → List Target
unfolding load
list_targets f = load f

abbrev pub names : String → Option Value → Bool
names label none = false
names label (some (text s)) = s == label
names label (some (flag b)) = false
names label (some null) = false

-- `t.get("label") == label`
abbrev pub is_label : String → Target → Bool
is_label label t = names label (get "label" t)

pub find : String → List Target → Option Target
find label [] = none
find label (t ∷ ts) = if is_label label t then some t else find label ts

unfoldable pub get_target : TargetsFile → String → Option Target
unfolding find load
get_target f label = find label (load f)

-- The loop of `_build_entry` over the SNMP overrides.
add_overrides : Target → Dict Value → Target
add_overrides entry [] = entry
add_overrides entry ((key, value) ∷ rest) =
    add_overrides (if member key snmp_fields && truthy value then put key value entry else entry)
      rest

pub build_entry : String → String → String → Value → Dict Value → Bool → Target
unfolding add_overrides
build_entry label host adom token snmp_overrides threat_poll_enabled =
    add_overrides
      (("label", text label)
        ∷ ("host", text host)
        ∷ ("adom", text adom)
        ∷ ("token", token)
        ∷ ("threat_poll_enabled", flag threat_poll_enabled)
        ∷ [])
      snmp_overrides

-- The arguments of a create or an update, after their defaults.
pub record Input : Type 0 where
  pub host : String
  pub adom : String
  pub token : String
  pub snmp_overrides : Dict Value
  pub threat_poll_enabled : Bool

pub create_target : TargetsFile → String → Input → Result (TargetsFile × Bool)
create_target f raw i =
    let label = strip raw in
    if label == ""
    then err (value_error "Target label cannot be empty.")
    else if any (is_label label) (load f)
    then ok (f, false)
    else let entry =
        build_entry label i.host i.adom (text i.token) i.snmp_overrides i.threat_poll_enabled in
      ok (contents (load f ++ entry ∷ []), true)

-- The entry that replaces `t`: a blank token and the overrides not given keep their stored values.
pub updated_entry : String → Input → Target → Target
updated_entry label i t =
    let token = if i.token == "" then default (get "token" t) (text "") else text i.token in
    build_entry label i.host i.adom token (put_all (pick snmp_fields t) i.snmp_overrides)
      i.threat_poll_enabled

-- The loop of `update_target`, at the first entry with the label.
pub replace : String → Input → List Target → Option (List Target)
replace label i [] = none
replace label i (t ∷ ts) =
    let rest = replace label i ts in
    if is_label label t
    then some (updated_entry label i t ∷ ts)
    else elim rest [ none ↦ none | some us ↦ some (t ∷ us) ]

pub update_target : TargetsFile → String → Input → TargetsFile × Bool
unfolding replace
update_target f label i = elim (replace label i (load f)) [
  | none ↦ (f, false)
  | some ts ↦ (contents ts, true)
]

pub delete_target : TargetsFile → String → TargetsFile × Bool
delete_target f label =
    let targets = load f in
    let remaining = keep (λ t. not (is_label label t)) targets in
    if nat_eq (length remaining) (length targets) then (f, false) else (contents remaining, true)

-- `_mask_target` of app/routes/admin_routes.py.
pub mask_target : Target → Target
mask_target t =
    remove "token"
      (put "token_set" (flag (elim (get "token" t) [ none ↦ false | some v ↦ truthy v ])) t)
