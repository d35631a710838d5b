-- ===== src/Collector/Pollers/Served.antt =====
-- What the workers of the web server answer of the two pollers.
use t_log.Shared.{ℕ, none, some, String, ◌≡◌, ap, is_some}
use t_log.LogStats as Logs
use t_log.ThreatStats.Fleet as Fleet
use t_log.Collector.{Split, serve, Run, IsStart}
use t_log.Collector.Workers.{first_answer-kept}
use t_log.Collector.Pollers.{log_poller, threat_poller}

-- A worker whose first request for the log figures comes after a successful poll answers what the
-- collector has at that moment. From then on it gives this one answer, whatever the collector polls
-- later and whatever the other workers do.
pub logs_first_answer-kept :
    (i : ℕ) (start s t : Split Logs.State Logs.Cache) (time : String)
    → IsStart log_poller start
    → Run log_poller start s
    → s.own.cache.collected_at ≡ some time
    → (s.workers i).collected_at ≡ none
    → Run log_poller (serve log_poller i s).0 t
    → ((serve log_poller i s).1 ≡ s.own.cache) × ((serve log_poller i t).1 ≡ s.own.cache)
unfolding log_poller
logs_first_answer-kept i start s t time fresh reached polled first later =
    first_answer-kept log_poller i start s t fresh reached (ap is_some polled) (ap is_some first)
      later

-- The same of the threat figures.
pub threats_first_answer-kept :
    (i : ℕ) (start s t : Split Fleet.State Fleet.Cache) (time : String)
    → IsStart threat_poller start
    → Run threat_poller start s
    → s.own.cache.collected_at ≡ some time
    → (s.workers i).collected_at ≡ none
    → Run threat_poller (serve threat_poller i s).0 t
    → ((serve threat_poller i s).1 ≡ s.own.cache) × ((serve threat_poller i t).1 ≡ s.own.cache)
unfolding threat_poller
threats_first_answer-kept i start s t time fresh reached polled first later =
    first_answer-kept threat_poller i start s t fresh reached (ap is_some polled) (ap is_some first)
      later
