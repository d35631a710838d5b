-- ===== src/LogUsage/Answer/Report.antt =====
-- What an answered log-usage search says of each device, and how long it goes on.
use t_log.Shared.{
  ℕ, ◌+◌, ◌≤◌, Bool, true, false, not, ◌&&◌, List, [], ◌∷◌, String, ◌≡◌, refl, if◌then◌else◌, arith,
  Bool-cases, inl, inr,
}
use t_log.Shared.Text.{Unicode}
use t_log.Shared.Dict.{Dict, has}
use t_log.Shared.Sets.{eq_string, member}
use t_log.Shared.Sort.{sorted, text_le, any-sorted}
use t_log.LogUsage.{
  Reply, got, raised, Device, Contribution, Client, Search, start, resolve_devices, is_empty,
  take_device, merge, search_devices, search_target, search_targets,
}
use t_log.LogUsage.Request.{LogRequest}
use t_log.LogUsage.Answer.{
  skip_late, Response, answered, report, respond, Source, match_targets_for_adom, clients,
  run_log_usage_search,
}
use t_log.LogUsage.Coverage.{has-set_all, Accounted, start-Accounted, search_targets-Accounted}

module _ (devices : List String) (n : String) where
  skip_late-Accounted : (s : Search) → Accounted devices n s → Accounted devices n (skip_late s)
  unfolding skip_late member
  skip_late-Accounted s a =
      let msg : String = "skipped: request deadline exceeded" in
      elim (Bool-cases s.deadline_hit) [
        | inl hit ↦ rw hit (record {
          queried = ground (arith, a.queried, has-set_all msg n s.remaining s.device_errors);
          left = λ m. absurd (cc m);
          failed = λ h.
              ground (arith, a.left, a.failed, h, has-set_all msg n s.remaining s.device_errors);
        })
        | inr go ↦ rw go (record { queried = a.queried; left = a.left; failed = a.failed })
      ]

-- What an answer with status 200 says of one requested device.
pub record Reported (devices : List String) (n : String) (r : Response) : Type 0 where
  pub queried :
      member n r.devices_queried
      ≡ (member n devices && (not (member n r.devices_not_found) && not (has n r.device_errors)))
  pub not_found : (member n r.devices_not_found && not (member n devices)) ≡ false
  pub failed : (has n r.device_errors && not (member n devices)) ≡ false

report-Reported :
    (req : LogRequest) (n : String) (s : Search)
    → Accounted req.devices n s
    → Reported req.devices n (report req s)
unfolding report member
report-Reported req n s a = record {
  queried = rw any-sorted (rw any-sorted a.queried);
  not_found = rw any-sorted (ground (arith, a.left));
  failed = ground (arith, a.failed);
}

respond-Reported :
    (req : LogRequest) (n : String) (s : Search) (r : Response)
    → Accounted req.devices n s
    → respond req s ≡ answered r
    → Reported req.devices n r
unfolding respond
respond-Reported req n s r a h =
    elim (Bool-cases (is_empty s.devices_queried && not (is_empty s.device_errors))) [
      | inl bad ↦ absurd (cc (rw bad at h))
      | inr fine ↦
          let same : report req s ≡ r = cc (rw fine at h) in rw (← same) (report-Reported req n s a)
    ]

module _ (late : ℕ → Bool) (u : Unicode) (sources : List Source) (req : LogRequest) where
  -- An answer with status 200 lists a name as queried exactly when it was requested and is neither
  -- reported as not found nor given an error, and it reports only requested names, for any clients
  -- and any readings of the clock.
  pub run_log_usage_search-Reported :
      (n : String) (r : Response)
      → run_log_usage_search late u sources req ≡ answered r
      → Reported req.devices n r
  unfolding run_log_usage_search
  run_log_usage_search-Reported n r h =
      let targets = match_targets_for_adom u req.adom sources in
      let done = skip_late-Accounted req.devices n _ (
        search_targets-Accounted req.devices n late u (clients targets) (start req.devices)
          (start-Accounted req.devices n)) in
      elim (Bool-cases (is_empty targets)) [
        | inl none_match ↦ absurd (cc (rw none_match at h))
        | inr some_match ↦ respond-Reported req n _ r done (rw some_match at h)
      ]

-- The clock is read before each search; the readings until the search ends lie below `k`, and the
-- one at `k` ends it.
module _ (late : ℕ → Bool) (k : ℕ) (passed : late k ≡ true) where
  abbrev InTime : Search → Type 0
  InTime s = s.clock_reads + (if s.deadline_hit then 0 else 1) ≤ k + 1

  reads-merge :
      (name : String) (r : Reply Contribution) (s : Search)
      → ((merge name r (take_device name s)).clock_reads ≡ s.clock_reads + 1)
        × ((merge name r (take_device name s)).deadline_hit ≡ s.deadline_hit)
  unfolding merge take_device
  reads-merge name (raised e) s = (refl, refl)
  reads-merge name (got c) s = (refl, refl)

  search_devices-InTime :
      (search : String → Reply Contribution) (d : Dict String) (s : Search)
      → s.deadline_hit ≡ false
      → InTime s
      → InTime (search_devices late search d s)
  unfolding search_devices
  search_devices-InTime search [] s go h = h
  search_devices-InTime search ((name, devid) ∷ d) s go h =
      let below : s.clock_reads ≤ k = ground (arith, h, go) in
      let (reads, flag) = reads-merge name (search devid) s in
      elim (Bool-cases (late s.clock_reads)) [
        | inl e ↦ rw e (omega arith)
        | inr e ↦ rw e (
            search_devices-InTime search d (merge name (search devid) (take_device name s))
              (rw flag go) (rw (reads, flag) (ground (arith, go, h, passed, e))))
      ]

  search_target-InTime :
      (u : Unicode) (client : Client) (r : Reply (List Device)) (s : Search)
      → s.deadline_hit ≡ false
      → InTime s
      → InTime (search_target late u client r s)
  unfolding search_target
  search_target-InTime u client (raised e) s go h = h
  search_target-InTime u client (got found) s go h =
      search_devices-InTime client.search (resolve_devices u found (sorted text_le s.remaining)) s
        go h

  start-go : (devices : List String) → (start devices).deadline_hit ≡ false
  unfolding start
  start-go devices = refl

  start-InTime : (devices : List String) → InTime (start devices)
  unfolding start
  start-InTime devices = omega arith

  search_targets-InTime :
      (u : Unicode) (cs : List Client) (s : Search)
      → s.deadline_hit ≡ false
      → InTime s
      → InTime (search_targets late u cs s)
  unfolding search_targets
  search_targets-InTime u [] s go h = h
  search_targets-InTime u (client ∷ cs) s go h =
      let once = search_target-InTime u client client.devices s go h in
      elim (Bool-cases (is_empty s.remaining)) [
        | inl e ↦ rw e h
        | inr e ↦ elim (Bool-cases (search_target late u client client.devices s).deadline_hit) [
          | inl hit ↦ rw (e, hit) once
          | inr on ↦ rw (e, on) (search_targets-InTime u cs _ on once)
        ]
      ]

  -- The search reads the clock before each device. Where the reading with the number `k` finds the
  -- deadline passed, no reading follows it, so at most `k` devices are searched, whatever the number
  -- of targets and devices.
  pub search_targets-le :
      (u : Unicode) (cs : List Client) (devices : List String)
      → (search_targets late u cs (start devices)).clock_reads ≤ k + 1
  search_targets-le u cs devices =
      let h =
        search_targets-InTime u cs (start devices) (start-go devices) (start-InTime devices) in
      omega (arith, h)
