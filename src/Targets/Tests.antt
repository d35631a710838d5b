-- ===== src/Targets/Tests.antt =====
-- Runs of app/faz_targets.py, and the theorems at a concrete list of targets.
use t_log.Shared.{
  true, false, none, some, [], ◌∷◌, ◌≡◌, refl, value_error, ok, err, malformed, contents,
}
use t_log.Shared.Text.{strip}
use t_log.Shared.Dict.{get, put, remove, IsUnique, pick, put_all}
use t_log.Shared.Sets.{eq_string, member}
use t_log.Targets.{
  text, flag, Target, TargetsFile, list_targets, get_target, build_entry, Input, create_target,
  updated_entry, update_target, delete_target, mask_target,
}

abbrev faz1 : Target
faz1 =
    ("label", text "faz1")
    ∷ ("host", text "10.0.0.1")
    ∷ ("adom", text "root")
    ∷ ("token", text "secret")
    ∷ ("snmp_user", text "mon")
    ∷ ("snmp_auth_key", text "k1")
    ∷ []

abbrev file : TargetsFile
file = contents (faz1 ∷ [])

-- Clears one SNMP override, sets another, and leaves the token blank.
abbrev input : Input
input = record {
  host = "10.0.0.2";
  adom = "root";
  token = "";
  snmp_overrides = ("snmp_user", text "") ∷ ("snmp_priv_key", text "k2") ∷ [];
  threat_poll_enabled = false;
}

input-IsUnique : IsUnique input.snmp_overrides
unfolding get
input-IsUnique = (refl, (refl, tt))

targets : Unit {0}
unfolding list_targets get_target create_target update_target delete_target mask_target build_entry
    updated_entry get put remove pick put_all member strip
targets = tt

update_test :
    get_target (update_target file "faz1" input).0 "faz1"
    ≡ some (
        ("label", text "faz1")
        ∷ ("host", text "10.0.0.2")
        ∷ ("adom", text "root")
        ∷ ("token", text "secret")
        ∷ ("threat_poll_enabled", flag false)
        ∷ ("snmp_auth_key", text "k1")
        ∷ ("snmp_priv_key", text "k2")
        ∷ [])
unfolding targets
update_test = refl

other_tests :
    (create_target file " faz1" input ≡ ok (file, false))
    × (create_target file "  " input ≡ err (value_error "Target label cannot be empty."))
    × (update_target file "faz2" input ≡ (file, false))
    × (delete_target file "faz1" ≡ (contents [], true))
    × (list_targets malformed ≡ [])
    × (get "token" (mask_target faz1) ≡ none)
unfolding targets
other_tests = (refl, refl, refl, refl, refl, refl)
