-- ===== src/LogUsage/Resolve.antt =====
-- What is resolved on a target: names that were asked for, once each.
use t_log.Shared.{
  true, Option, none, some, List, [], ◌∷◌, String, ◌==◌, eq_refl, ◌≡◌, All, arith, Bool-cases, inl,
  inr,
}
use t_log.Shared.Text.{Unicode}
use t_log.Shared.Dict.{Dict, get, IsUnique, put-IsUnique, put-All}
use t_log.Shared.Sets.{eq_string, member}
use t_log.Shared.Sort.{sorted, text_le, any-sorted}
use t_log.LogUsage.{Device, resolve_one, pick_resolved, resolve_devices, by_name_lower}

-- Every key lies in a set, and no key stands twice.
abbrev pub KeysIn : List String → Dict String → Type 0
KeysIn names d = All (λ (e : String × String). member e.0 names ≡ true) d

module _ (u : Unicode) where
  abbrev pub Resolved : List String → Dict String → Type 0
  Resolved names d = KeysIn names d × IsUnique d

  resolve_one-Resolved :
      (names : List String) (name : String) (o : Option String) (d : Dict String)
      → member name names ≡ true
      → Resolved names d
      → Resolved names (resolve_one u name o d)
  unfolding resolve_one
  resolve_one-Resolved names name none d m r = r
  resolve_one-Resolved names name (some devid) d m (h, k) = elim (Bool-cases (devid == "")) [
    | inl e ↦ rw e (h, k)
    | inr e ↦
        rw e (
          put-All (λ n. member n names ≡ true) name devid d h (λ _. m),
          put-IsUnique name devid d k,
        )
  ]

  pick_resolved-Resolved :
      (all_names : List String) (known : Dict String) (names : List String) (d : Dict String)
      → ((n : String) → member n names ≡ true → member n all_names ≡ true)
      → Resolved all_names d
      → Resolved all_names (pick_resolved u known d names)
  unfolding pick_resolved member
  pick_resolved-Resolved all_names known [] d sub r = r
  pick_resolved-Resolved all_names known (name ∷ names) d sub r =
      pick_resolved-Resolved all_names known names _ (λ n m. sub n (ground (arith, m)))
        (resolve_one-Resolved all_names name (get (u.lower name) known) d
          (sub name (ground (arith, eq_refl name))) r)

  -- What is resolved was asked for, once each.
  pub resolve_devices-Resolved :
      (devices : List Device) (names : List String)
      → Resolved names (resolve_devices u devices (sorted text_le names))
  unfolding resolve_devices member
  resolve_devices-Resolved devices names =
      pick_resolved-Resolved names (by_name_lower u [] devices) (sorted text_le names) []
        (λ n m. rw (any-sorted text_le (λ x. x == n) names) at m) (tt, tt)
