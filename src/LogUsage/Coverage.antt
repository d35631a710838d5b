-- ===== src/LogUsage/Coverage.antt =====
-- What becomes of each requested device in a log-usage search.
use t_log.Shared.{
  ℕ, Bool, true, false, not, ◌&&◌, ◌||◌, List, [], ◌∷◌, ◌++◌, String, ◌==◌, eq_iff, ◌≡◌, refl,
  if◌then◌else◌, any-append, arith, Bool-cases, inl, inr,
}
use t_log.Shared.Text.{Unicode}
use t_log.Shared.Dict.{Dict, get, put, remove, has, get-put, get-remove, IsUnique}
use t_log.Shared.Sets.{eq_string, member, discard, any-beq, member-discard, member-update}
use t_log.Shared.Sort.{sorted, text_le}
use t_log.FazErrors.{message}
use t_log.LogUsage.Resolve.{KeysIn, resolve_devices-Resolved}
use t_log.LogUsage.{
  Reply, got, raised, Device, Contribution, Client, Search, start, resolve_devices, set_defaults,
  set_all, is_empty, take_device, merge, search_devices, search_target, search_targets,
}

has-set_defaults :
    (msg : String) (n : String) (names : List String) (errors : Dict String)
    → has n (set_defaults msg names errors) ≡ (has n errors || member n names)
unfolding set_defaults member
has-set_defaults msg n [] errors = ground arith
has-set_defaults msg n (name ∷ names) errors = ground (
  arith,
  has-set_defaults msg n names (if has name errors then errors else put name msg errors),
  get-put name n msg errors,
  eq_iff name n,
)

pub has-set_all :
    (msg : String) (n : String) (names : List String) (errors : Dict String)
    → has n (set_all msg names errors) ≡ (has n errors || member n names)
unfolding set_all member
has-set_all msg n [] errors = ground arith
has-set_all msg n (name ∷ names) errors =
    ground (arith, has-set_all msg n names (put name msg errors), get-put name n msg errors)

-- The other keys stay in a set that loses one name.
KeysIn-discard :
    (name : String) (names : List String) (d : Dict String)
    → has name d ≡ false
    → KeysIn names d
    → KeysIn (discard name names) d
unfolding get
KeysIn-discard name names [] new h = tt
KeysIn-discard name names ((j, w) ∷ d) new (h, hs) = (
  ground (arith, member-discard name j names, eq_iff name j, eq_iff j name, h, new),
  KeysIn-discard name names d (ground (arith, new)) hs,
)

member-push :
    (n name : String) (s : List String) → member n (s ++ name ∷ []) ≡ (member n s || name == n)
unfolding member
member-push n name s = ground (arith, any-append (λ x. x == n) s (name ∷ []))

module _ (devices : List String) (n : String) where
  -- One requested device: it was queried exactly when it is neither left over nor failed, and only
  -- requested devices are left over or failed.
  pub record Accounted (s : Search) : Type 0 where
    pub queried :
        member n s.devices_queried
        ≡ (member n devices && (not (member n s.remaining) && not (has n s.device_errors)))
    pub left : member n s.remaining ≡ true → member n devices ≡ true
    pub failed : has n s.device_errors ≡ true → member n devices ≡ true

  pub start-Accounted : Accounted (start devices)
  unfolding start get member
  start-Accounted = record {
    queried = ground (arith, member-update n [] devices);
    left = λ m. ground (arith, member-update n [] devices, m);
    failed = λ h. absurd (cc h);
  }

  merge-Accounted :
      (name : String) (r : Reply Contribution) (s : Search)
      → member name s.remaining ≡ true
      → Accounted s
      → Accounted (merge name r (take_device name s))
  unfolding merge take_device
  merge-Accounted name (raised e) s m a = record {
    queried = ground (
      arith,
      a.queried,
      a.left,
      m,
      member-discard name n s.remaining,
      get-remove name n s.device_errors,
      get-put name n (message e) (remove name s.device_errors),
      any-beq name n s.remaining,
      eq_iff name n,
    );
    left = λ h. ground (arith, a.left, h, member-discard name n s.remaining);
    failed = λ h. ground (
      arith,
      a.left,
      a.failed,
      h,
      m,
      get-remove name n s.device_errors,
      get-put name n (message e) (remove name s.device_errors),
      any-beq name n s.remaining,
    );
  }
  merge-Accounted name (got c) s m a = record {
    queried = ground (
      arith,
      a.queried,
      a.left,
      m,
      member-discard name n s.remaining,
      get-remove name n s.device_errors,
      member-push n name s.devices_queried,
      any-beq name n s.remaining,
      eq_iff name n,
    );
    left = λ h. ground (arith, a.left, h, member-discard name n s.remaining);
    failed = λ h. ground (arith, a.failed, h, get-remove name n s.device_errors);
  }

  remaining-merge :
      (name : String) (r : Reply Contribution) (s : Search)
      → (merge name r (take_device name s)).remaining ≡ discard name s.remaining
  unfolding merge take_device
  remaining-merge name (raised e) s = refl
  remaining-merge name (got c) s = refl

  module _ (late : ℕ → Bool) where
    search_devices-Accounted :
        (search : String → Reply Contribution) (d : Dict String) (s : Search)
        → KeysIn s.remaining d × IsUnique d
        → Accounted s
        → Accounted (search_devices late search d s)
    unfolding search_devices
    search_devices-Accounted search [] s r a = a
    search_devices-Accounted search ((name, devid) ∷ d) s ((m, ms), (new, k)) a =
        elim (Bool-cases (late s.clock_reads)) [
          | inl e ↦ rw e (record { queried = a.queried; left = a.left; failed = a.failed })
          | inr e ↦ rw e (
              search_devices-Accounted search d (merge name (search devid) (take_device name s))
                (rw (remaining-merge name (search devid) s)
                  (KeysIn-discard name s.remaining d new ms, k))
                (merge-Accounted name (search devid) s m a))
        ]

    search_target-Accounted :
        (u : Unicode) (client : Client) (r : Reply (List Device)) (s : Search)
        → Accounted s
        → Accounted (search_target late u client r s)
    unfolding search_target
    search_target-Accounted u client (raised e) s a = record {
      queried =
          ground (arith, a.queried, has-set_defaults (message e) n s.remaining s.device_errors);
      left = a.left;
      failed = λ h.
          ground (
            arith,
            a.left,
            a.failed,
            h,
            has-set_defaults (message e) n s.remaining s.device_errors,
          );
    }
    search_target-Accounted u client (got found) s a =
        search_devices-Accounted client.search
          (resolve_devices u found (sorted text_le s.remaining)) s
          (resolve_devices-Resolved u found s.remaining) a

    pub search_targets-Accounted :
        (u : Unicode) (cs : List Client) (s : Search)
        → Accounted s
        → Accounted (search_targets late u cs s)
    unfolding search_targets
    search_targets-Accounted u [] s a = a
    search_targets-Accounted u (client ∷ cs) s a =
        let once = search_target-Accounted u client client.devices s a in
        elim (Bool-cases (is_empty s.remaining)) [
          | inl e ↦ rw e a
          | inr e ↦ elim (Bool-cases (search_target late u client client.devices s).deadline_hit) [
            | inl hit ↦ rw (e, hit) once
            | inr go ↦ rw (e, go) (search_targets-Accounted u cs _ once)
          ]
        ]
