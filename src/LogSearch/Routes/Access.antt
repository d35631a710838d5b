-- ===== src/LogSearch/Routes/Access.antt =====
-- Who gets an answer from Log Search, and for which searches.
use t_log.Shared.{false, Option, none, some, String, default, ◌≡◌, refl, ap, ◌∙◌, ok, steps_of_ok}
use t_log.Shared.Text.{Unicode}
use t_log.Shared.Decimal.{Digits}
use t_log.Sessions.{Session, Denied, App, check_adom_access}
use t_log.Targets.{Target, TargetsFile, get_target}
use t_log.AppLog.{Log}
use t_log.FazErrors.{faz_error, search_timeout, request_error}
use t_log.LogUsage.{Reply, got, raised}
use t_log.FazSearch.{Found}
use t_log.LogSearch.{IpLibrary}
use t_log.LogSearch.Prepare.{SearchBody, Query, Prepared, stop, query, prepare}
use t_log.LogSearch.Prepare.Asked.{Asked, prepare-query}
use t_log.LogSearch.Routes.{
  Answer, Connection, SearchClient, answer, api_search, client_for, done, finish, perform,
  search_if,
}

module _ (u : Unicode) (ip : IpLibrary) (d : Digits) where
  finish-done :
      (user label : String) (q : Query) (local : Option (String × String)) (r : Reply Found)
      (now : String) (l l' : Log) (f : Found)
      → finish u ip d user label q local r now l ≡ (l', done f)
      → r ≡ got f
  unfolding finish
  finish-done user label q local (got g) now l l' f h =
      ap got (cc (ap (λ (p : Log × Answer). p.1) h))
  finish-done user label q local (raised (search_timeout why)) now l l' f h =
      absurd (cc (ap (λ (p : Log × Answer). p.1) h))
  finish-done user label q local (raised (faz_error why)) now l l' f h =
      absurd (cc (ap (λ (p : Log × Answer). p.1) h))
  finish-done user label q local (raised (request_error why)) now l l' f h =
      absurd (cc (ap (λ (p : Log × Answer). p.1) h))

  -- The query in the appliance's own time, as the client gets it.
  abbrev pub search_on : (Connection → SearchClient) → Connection → Query → Reply Found
  search_on connect c q =
      let range = (connect c).local_time_range q.start_time q.end_time in
      (connect c).search_logs (record q { start_time = range.0; end_time = range.1 })

  module _ (connect : Connection → SearchClient) (user label now : String) (l l' : Log)
      (f : Found) where
    perform-done :
        (q : Query) (r : Reply Connection)
        → perform u ip d connect user label q r now l ≡ (l', done f)
        → (c : Connection) × (r ≡ got c) × (search_on connect c q ≡ got f)
    unfolding perform
    perform-done q (raised e) h =
        absurd (cc (finish-done user label q none (raised e) now l l' f h))
    perform-done q (got c) h =
        let range = (connect c).local_time_range q.start_time q.end_time in
        (
          c,
          refl,
          finish-done user label q (some range)
              ((connect c).search_logs (record q { start_time = range.0; end_time = range.1 })) now
              l l' f h,
        )

    answer-done :
        (p : Prepared)
        → answer u ip d connect user label p now l ≡ (l', done f)
        → (t : Target) × (q : Query) × (c : Connection) × (p ≡ query t q)
          × (client_for t ≡ got c)
          × (search_on connect c q ≡ got f)
    unfolding answer
    answer-done (stop message extra a) h = absurd (cc (ap (λ (p : Log × Answer). p.1) h))
    answer-done (query t q) h =
        let (c, connected, found) = perform-done q (client_for t) h in
        (t, q, c, refl, connected, found)

  module _ (app : App) (path : String) (targets : TargetsFile) (connect : Connection → SearchClient)
      (now : String) where
    pub api_search-done :
        (s : Session) (b : SearchBody) (l l' : Log) (f : Found)
        → api_search u ip d app path targets connect now s b l ≡ ok (l', done f)
        → (t : Target) × (q : Query) × (c : Connection) × (check_adom_access app path
              (default b.target "")
              s
            ≡ ok false)
          × (get_target targets (default b.target "") ≡ some t)
          × Asked u ip d b q
          × (client_for t ≡ got c)
          × (search_on connect c q ≡ got f)
    unfolding api_search
    api_search-done s b l l' f h =
        let user = default s.user "" in
        let label = default b.target "" in
        let (p, answered, prepared) =
          steps_of_ok (prepare u ip d app path targets s b)
            (λ p. ok (answer u ip d connect user label p now l)) h in
        let (t, q, c, asked_for, connected, found) =
          answer-done connect user label now l l' f p (cc answered) in
        let (permitted, target, asked) =
          prepare-query u ip d app path targets s b t q (prepared ∙ ap ok asked_for) in
        (t, q, c, permitted, target, asked, connected, found)

    pub search_if-done :
        (b : SearchBody) (l l' : Log) (s' : Session) (f : Found) (checked : Session × Option Denied)
        → search_if u ip d app path targets connect now b l checked ≡ ok (s', l', some (done f))
        → (checked ≡ (s', none))
          × (api_search u ip d app path targets connect now s' b l ≡ ok (l', done f))
    unfolding search_if
    search_if-done b l l' s' f (s, some denied) h = absurd (cc h)
    search_if-done b l l' s' f (s, none) h =
        let (mid, last, first) =
          steps_of_ok (api_search u ip d app path targets connect now s b l)
            (λ mid. ok (s, mid.0, some mid.1)) h in
        let ends : ◌≡◌ {A = Session × Log × Option Answer} (s, mid.0, some mid.1)
            (s', l', some (done f)) =
          cc last in
        let same : s ≡ s' = ap (λ (r : Session × Log × Option Answer). r.0) ends in
        let log : mid.0 ≡ l' = ap (λ (r : Session × Log × Option Answer). r.1) ends in
        let found : mid.1 ≡ done f = cc (ap (λ (r : Session × Log × Option Answer). r.2) ends) in
        (ap (λ s. (s, none)) same, rw (← same) (first ∙ ap ok (λ i. (log i, found i))))
