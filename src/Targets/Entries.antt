-- ===== src/Targets/Entries.antt =====
-- What an entry of faz_targets.json holds after `_build_entry`, an update and the masking.
use t_log.Shared.{
  Bool, true, false, Option, none, some, [], ◌∷◌, String, ◌==◌, eq_iff, ◌≡◌, ◌≢◌, refl,
  if◌then◌else◌, default, arith, Bool-cases, inl, inr,
}
use t_log.Shared.Dict.{
  Dict, get, put, put_all, pick, get-put, get-remove, IsUnique, Distinct, or_else, get-put_all,
  get-pick, put_all-IsUnique, pick-IsUnique,
}
use t_log.Shared.Sets.{eq_string, member}
use t_log.Targets.{
  Value, text, flag, truthy, Target, snmp_fields, add_overrides, build_entry, Input, updated_entry,
  mask_target,
}

-- An empty override is no override.
abbrev pub live : Option Value → Option Value
live none = none
live (some v) = if truthy v then some v else none

get-add_overrides :
    (j : String) (entry : Target) (o : Dict Value)
    → IsUnique o
    → get j (add_overrides entry o)
      ≡ (if member j snmp_fields then or_else (live (get j o)) (get j entry) else get j entry)
unfolding add_overrides get
get-add_overrides j entry [] h = ground arith
get-add_overrides j entry ((k, v) ∷ o) (h, hs) = ground (
  arith,
  get-add_overrides j entry o hs,
  get-add_overrides j (put k v entry) o hs,
  eq_iff k j,
  get-put k j v entry,
  h,
)

ne-snmp :
    (j k : String) → member j snmp_fields ≡ true → member k snmp_fields ≡ false → (k == j) ≡ false
ne-snmp j k h n = elim (Bool-cases (k == j)) [
  | inl e ↦ let same : k ≡ j = (eq_iff k j).0 e in cc (same, h, n)
  | inr e ↦ e
]

module _ (label host adom : String) (token : Value) (o : Dict Value) (polled : Bool)
    (unique : IsUnique o) where
  pub get-build_entry :
      (j : String)
      → get j (build_entry label host adom token o polled) ≡ (
          if member j snmp_fields
          then or_else (live (get j o)) none
          else get j (
              ("label", text label)
              ∷ ("host", text host)
              ∷ ("adom", text adom)
              ∷ ("token", token)
              ∷ ("threat_poll_enabled", flag polled)
              ∷ []))
  unfolding build_entry get member
  get-build_entry j = elim (Bool-cases (member j snmp_fields)) [
    | inl e ↦
        rw (get-add_overrides j _ o unique, e)
          (rw (
            ne-snmp j "label" e refl,
            ne-snmp j "host" e refl,
            ne-snmp j "adom" e refl,
            ne-snmp j "token" e refl,
            ne-snmp j "threat_poll_enabled" e refl,
          ))
    | inr e ↦ rw (get-add_overrides j _ o unique, e)
  ]

  pub label-build_entry :
      get "label" (build_entry label host adom token o polled) ≡ some (text label)
  unfolding get member
  label-build_entry = get-build_entry "label"

  pub flag-build_entry :
      get "threat_poll_enabled" (build_entry label host adom token o polled) ≡ some (flag polled)
  unfolding get member
  flag-build_entry = get-build_entry "threat_poll_enabled"

snmp_fields-Distinct : Distinct snmp_fields
snmp_fields-Distinct = (refl, (refl, (refl, (refl, (refl, tt)))))

module _ (label : String) (i : Input) (t : Target) (unique : IsUnique i.snmp_overrides) where
  merged-IsUnique : IsUnique (put_all (pick snmp_fields t) i.snmp_overrides)
  merged-IsUnique =
      put_all-IsUnique _ i.snmp_overrides (pick-IsUnique snmp_fields t snmp_fields-Distinct)

  get-picked : (j : String) → member j snmp_fields ≡ true → get j (pick snmp_fields t) ≡ get j t
  unfolding member
  get-picked j h = rw (get-pick, h)

  updated_entry-snmp :
      (j : String)
      → member j snmp_fields ≡ true
      → get j (updated_entry label i t) ≡ live (or_else (get j i.snmp_overrides) (get j t))
  unfolding updated_entry
  updated_entry-snmp j h =
      rw
        (
          get-build_entry label i.host i.adom
              (if i.token == "" then default (get "token" t) (text "") else text i.token)
              (put_all (pick snmp_fields t) i.snmp_overrides) i.threat_poll_enabled merged-IsUnique
              j,
          h,
          get-put_all j (pick snmp_fields t) i.snmp_overrides unique,
          get-picked j h,
        )
        (ground arith)

  -- The entry that an update writes: the given label, host, ADOM and poll flag; the given token, or
  -- the stored one (the empty text where there is none) if the given one is blank; and for each
  -- SNMP field the given override, or the stored one if none is given, left out where it is empty.
  pub updated_entry-fields :
      (get "label" (updated_entry label i t) ≡ some (text label))
      × (get "host" (updated_entry label i t) ≡ some (text i.host))
      × (get "adom" (updated_entry label i t) ≡ some (text i.adom))
      × (get "token" (updated_entry label i t)
          ≡ some (if i.token == "" then default (get "token" t) (text "") else text i.token))
      × (get "threat_poll_enabled" (updated_entry label i t) ≡ some (flag i.threat_poll_enabled))
      × ((j : String)
          → member j snmp_fields ≡ true
          → get j (updated_entry label i t) ≡ live (or_else (get j i.snmp_overrides) (get j t)))
  unfolding updated_entry get member
  updated_entry-fields =
      let entry = λ (j : String).
        get-build_entry label i.host i.adom
          (if i.token == "" then default (get "token" t) (text "") else text i.token)
          (put_all (pick snmp_fields t) i.snmp_overrides) i.threat_poll_enabled merged-IsUnique j in
      (
        entry "label",
        entry "host",
        entry "adom",
        entry "token",
        entry "threat_poll_enabled",
        updated_entry-snmp,
      )

-- Masking removes the token, tells whether it was set, and keeps every other field.
pub mask_target_lem :
    (t : Target)
    → (get "token" (mask_target t) ≡ none)
      × (get "token_set" (mask_target t)
          ≡ some (flag (elim (get "token" t) [ none ↦ false | some v ↦ truthy v ])))
      × ((j : String) → "token" ≢ j → "token_set" ≢ j → get j (mask_target t) ≡ get j t)
unfolding mask_target
mask_target_lem t = (
  rw get-remove refl,
  rw (get-remove, get-put) refl,
  λ j ne ne'. rw (get-remove, get-put) (ground (arith, eq_iff "token" j, eq_iff "token_set" j)),
)
