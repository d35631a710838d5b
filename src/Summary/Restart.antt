-- ===== src/Summary/Restart.antt =====
-- The executive summary of a process that has not polled, next to the one of the process that has.
use t_log.Shared.{
  ℕ, true, if◌then◌else◌, is_some, length, ◌∙◌, Option, none, some, List, [], String, ◌≡◌, refl, ap,
  sym, any,
}
use t_log.Shared.Int.{ℤ}
use t_log.Shared.Sort.{text_le}
use t_log.Shared.Text.{Unicode}
use t_log.Tokens.{SettingsFile, TokensFile, Refused, gate}
use t_log.FazHealth as Health
use t_log.FazHealth.Cards.{get_all_cached-stored}
use t_log.Shared.Dict.{IsUnique}
use t_log.LogStats as Logs
use t_log.LogStats.Cycle as LogCycle
use t_log.LogStats.Published as LogPublished
use t_log.LogHistory as LogRows
use t_log.ThreatStats.Fleet as Fleet
use t_log.ThreatStats.Fleet.Published as ThreatPublished
use t_log.ThreatHistory as ThreatRows
use t_log.ThreatHistory.Latest.{AllBefore, LogsBefore}
use t_log.Summary.{
  Config, LogFigures, Report, log_figures, source, build_threats, build_admin_access, build_vpn,
}
use t_log.Summary.Route.{
  World, Response, refused, ok, unless_refused, summary_report, summary, executive_summary,
}

-- All three caches are empty, beside the snapshots and the histories.
abbrev pub worker : World → World
worker w = record w {
  health = record w.health { cache = [] };
  logs = record w.logs { cache = Logs.empty_cache };
  threats = record w.threats { cache = Fleet.empty_cache };
}

-- The caches and the snapshots of the log and threat figures are gone; the health cards are kept.
abbrev pub restarted : World → World
restarted w = record w {
  logs = record w.logs { cache = Logs.empty_cache; stored = none };
  threats = record w.threats { cache = Fleet.empty_cache; stored = none };
}

-- The details of the silent devices are not in the history.
abbrev pub without_details : Response → Response
without_details (refused error) = refused error
without_details (ok r) = ok (record r { devices_silent_details = [] })

-- What a process says of the logs, and the figures that it takes for the threats.
abbrev logs_of : Logs.State × Logs.Cache → LogFigures
logs_of r = log_figures r.1 r.0.rollups

abbrev threats_of : Fleet.State × Fleet.Cache → Fleet.Cache
threats_of r =
    source r.1 (if is_some r.1.collected_at then none else ThreatRows.get_latest_rollup r.0.rollups)

abbrev of_cache : Logs.Cache → LogFigures
of_cache c = record {
  logging = length c.logging_devices;
  silent = length c.silent_devices;
  details = c.silent_details;
  events_per_sec = Logs.total_lograte c.logging_devices;
  collected_at = c.collected_at;
}

log_figures-cached :
    (c : Logs.Cache) (rows : List LogRows.Rollup) (t : String)
    → c.collected_at ≡ some t
    → log_figures c rows ≡ of_cache c
unfolding log_figures
log_figures-cached c rows t h = rw h refl

source-cached :
    (c : Fleet.Cache) (r : Option ThreatRows.Rollup) (t : String)
    → c.collected_at ≡ some t
    → source c r ≡ c
unfolding source
source-cached c r t h = rw h refl

module _ (t : String) (s : Logs.State) (published : LogPublished.Published t s) where
  logs_of-polled : logs_of (Logs.get_cached s) ≡ of_cache s.cache
  unfolding Logs.get_cached
  logs_of-polled =
      let seen : Logs.get_cached s ≡ (s, s.cache) = rw published.0 refl in
      ap logs_of seen ∙ log_figures-cached s.cache s.rollups t published.0

  logs_of-worker :
      logs_of (Logs.get_cached (record s { cache = Logs.empty_cache })) ≡ of_cache s.cache
  unfolding Logs.get_cached
  logs_of-worker =
      let seen : Logs.get_cached (record s { cache = Logs.empty_cache }) ≡ (s, s.cache) =
        simp published.1 (ap (λ o. (record s { stored = o }, s.cache)) (sym published.1)) in
      ap logs_of seen ∙ log_figures-cached s.cache s.rollups t published.0

  logs_of-restarted :
      logs_of (Logs.get_cached (record s { cache = Logs.empty_cache; stored = none }))
      ≡ record (of_cache s.cache) { details = [] }
  unfolding Logs.get_cached log_figures
  logs_of-restarted = rw (published.2, published.0) refl

module _ (t : String) (s : Fleet.State) (published : ThreatPublished.Published t s) where
  threats_of-polled : threats_of (Fleet.get_cached s) ≡ s.cache
  unfolding Fleet.get_cached
  threats_of-polled =
      let seen : Fleet.get_cached s ≡ (s, s.cache) = rw published.0 refl in
      ap threats_of seen ∙ source-cached s.cache _ t published.0

  threats_of-worker :
      threats_of (Fleet.get_cached (record s { cache = Fleet.empty_cache })) ≡ s.cache
  unfolding Fleet.get_cached
  threats_of-worker =
      let seen : Fleet.get_cached (record s { cache = Fleet.empty_cache }) ≡ (s, s.cache) =
        simp published.1 (ap (λ o. (record s { stored = o }, s.cache)) (sym published.1)) in
      ap threats_of seen ∙ source-cached s.cache _ t published.0

  threats_of-restarted :
      threats_of (Fleet.get_cached (record s { cache = Fleet.empty_cache; stored = none }))
      ≡ s.cache
  unfolding Fleet.get_cached source Fleet.rollup_of
  threats_of-restarted =
      rw published.2 (ap (λ o. record s.cache { collected_at = o }) (sym published.0))

answer-same :
    (refusal : Option Refused) (w v : World) (x y : World × Report)
    → x.1 ≡ y.1
    → (unless_refused refusal w x).1 ≡ (unless_refused refusal v y).1
unfolding unless_refused
answer-same none w v x y h = ap ok h
answer-same (some error) w v x y h = refl

without_details-answer :
    (refusal : Option Refused) (w : World) (x : World × Report)
    → without_details (unless_refused refusal w x).1
      ≡ (unless_refused refusal w (x.0, record x.1 { devices_silent_details = [] })).1
unfolding unless_refused
without_details-answer none w x = refl
without_details-answer (some error) w x = refl

module _ (usage : String → Option (ℕ × ℕ)) (percent : ℕ → ℕ → ℤ) (hash : String → String)
    (u : Unicode) (settings : SettingsFile) (tokens : TokensFile) (auth : String) (config : Config)
    (targets : List Health.Target) where
  abbrev pub answer : World → Response
  answer w = (executive_summary usage percent hash u settings tokens auth config targets w).1

  abbrev report : World → Report
  report w = (summary usage percent hash u config targets w).1

  -- The same report where the same figures are seen.
  report-same :
      (w v : World)
      → (Health.get_all_cached targets w.health).1 ≡ (Health.get_all_cached targets v.health).1
      → logs_of (Logs.get_cached w.logs) ≡ logs_of (Logs.get_cached v.logs)
      → threats_of (Fleet.get_cached w.threats) ≡ threats_of (Fleet.get_cached v.threats)
      → report w ≡ report v
  unfolding summary summary_report build_threats build_admin_access build_vpn
  report-same w v health logs threats = rw (health, logs, threats) refl

  module _ (t_logs t_threats : String) (w : World) (logs : LogPublished.Published t_logs w.logs)
      (threats : ThreatPublished.Published t_threats w.threats)
      (snapshot : w.health.stored ≡ some w.health.cache) (unique : IsUnique w.health.cache) where
    cards-worker :
        (Health.get_all_cached targets (worker w).health).1
        ≡ (Health.get_all_cached targets w.health).1
    cards-worker =
        let stored = (get_all_cached-stored targets w.health.cache unique).0 in
        let whole : ◌≡◌ {A = Health.State}
            (record { cache = w.health.cache; stored = some w.health.cache }) w.health =
          ap (λ o. record w.health { stored = o }) (sym snapshot) in
        ap (λ o. (Health.get_all_cached targets (record { cache = []; stored = o })).1) snapshot
        ∙ stored
        ∙ ap (λ s. (Health.get_all_cached targets s).1) whole

    report-worker : report (worker w) ≡ report w
    report-worker =
        report-same (worker w) w cards-worker
          (logs_of-worker t_logs w.logs logs ∙ sym (logs_of-polled t_logs w.logs logs))
          (threats_of-worker t_threats w.threats threats
            ∙ sym (threats_of-polled t_threats w.threats threats))

    report-restarted : report (restarted w) ≡ record (report w) { devices_silent_details = [] }
    unfolding summary summary_report build_threats build_admin_access build_vpn
    report-restarted =
        rw
          (
            logs_of-restarted t_logs w.logs logs,
            logs_of-polled t_logs w.logs logs,
            threats_of-restarted t_threats w.threats threats,
            threats_of-polled t_threats w.threats threats,
          )
          refl

    answers-agree :
        (answer (worker w) ≡ answer w) × (answer (restarted w) ≡ without_details (answer w))
    unfolding executive_summary
    answers-agree =
        let refusal = gate hash u settings tokens auth in
        (
          answer-same refusal _ _ _ _ report-worker,
          answer-same refusal _ _ _ _ report-restarted ∙ sym (without_details-answer refusal w _),
        )

  -- One cycle of both pollers, from any caches and snapshots.
  module _ (now threshold_minutes : ℕ) (t_logs t_threats log_cutoff threat_cutoff : String)
      (log_targets : List Logs.Target) (threat_targets : List Fleet.Target) (w : World) where
    abbrev pub polled : World
    polled = record w {
      logs = Logs.poll_all_targets now t_logs log_cutoff threshold_minutes log_targets w.logs;
      threats = Fleet.poll_all_targets u t_threats threat_cutoff threat_targets w.threats;
    }

    -- After a cycle of the log and the threat poller in which a target answers each, where the
    -- histories have older rows only, the time of the cycle is not cut off, and the health cards are
    -- stored as the process holds them, each label once, a process with empty caches answers the
    -- executive summary as the process that polled does. A process that keeps the health cards but
    -- has lost the caches and the snapshots of both figures still gives the same answer from the two
    -- histories, but for the details of the silent devices, which are left out. This holds for every
    -- header, whether the gate lets it pass or not.
    pub executive_summary-restarted :
        any LogCycle.answered log_targets ≡ true
        → any (ThreatPublished.answered u) threat_targets ≡ true
        → LogsBefore t_logs w.logs.rollups
        → AllBefore t_threats w.threats.rollups
        → text_le log_cutoff t_logs ≡ true
        → text_le threat_cutoff t_threats ≡ true
        → w.health.stored ≡ some w.health.cache
        → IsUnique w.health.cache
        → (answer (worker polled) ≡ answer polled)
          × (answer (restarted polled) ≡ without_details (answer polled))
    executive_summary-restarted logs_answer threats_answer older_logs older_threats young_logs
          young_threats snapshot unique =
        answers-agree t_logs t_threats polled
          (LogPublished.poll_all_targets-Published now t_logs log_cutoff threshold_minutes
            log_targets w.logs logs_answer older_logs young_logs)
          (ThreatPublished.poll_all_targets-Published u t_threats threat_cutoff threat_targets
            w.threats threats_answer older_threats young_threats)
          snapshot unique
