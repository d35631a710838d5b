-- ===== src/Lib.antt =====
-- 4tLog shows FortiAnalyzer logs and health to signed-in users and gives fleet-wide figures to other
-- services. This library models the decisions of its Python code under app/ as functions, and states
-- what those decisions guarantee.
--
-- The parts and the files that model them:
--
-- Shared        the names that all files use: lists, text, Python dicts and sets, stored files.
-- Users         app/auth.py: local accounts, the password policy, authenticate.
-- Groups        app/groups.py: the store of groups. Groups.Access has get_allowed_tabs,
--               get_allowed_adoms and the two user_can_access functions.
-- Sessions      app/decorators.py: _revalidate_session and the three decorators, check_adom_access. It
--               reads Users and Groups on every request.
-- Login         app/routes/auth_routes.py: the failed-login limiter and the POST branch of login.
-- SignIn        app/routes/auth_routes.py: what login, sso_login and logout do to the session, and the
--               redirect of a login. Login is the first half of post_login; the sessions go to Sessions.
-- Csrf          app/security.py and _security_filters of app/__init__.py: the token against cross-site
--               request forgery, before every request.
-- Revocations   app/tsuite_adapter.py: _parse_revocations and make_session_checker; the checker is the
--               one that Sessions asks for sessions that SSO established. Revocations.Fetch has make_http_fetch.
-- Sso           app/sso_verify.py: the keys of 4tSuite, verify_token and verify_service_token.
-- Sync          app/tsuite_adapter.py: create_blueprint, with the callbacks of app/routes/sync_routes.py:
--               the manifest, the health check and the push of a membership into Groups.
-- Targets       app/faz_targets.py: the configured FortiAnalyzers, and _mask_target of
--               app/routes/admin_routes.py.
-- LogSearch     app/log_search_filters.py: parse_ip_entries and parse_port_entries. LogSearch.Prepare and
--               LogSearch.Routes: app/routes/log_search_routes.py, the search with its checks, and the
--               lists of targets, fields and devices.
-- FazErrors     app/faz_client.py: what a call of the client raises, and its label.
-- FazClient     app/faz_client.py: get_devices and get_log_stats, whose records LogStats classifies, and
--               FazClient.Requests the fields, the alert counts and the conversion of times.
-- FazSearch     app/faz_client.py: _unwrap_result, the polling loop of search_logs and run_fortiview,
--               build_filter_expression.
-- LogUsage      app/routes/external_api_routes.py: the validation and the search of POST log-usage;
--               LogUsage.Rows has the rows of one device.
-- Admin         app/routes/admin_routes.py: the handlers of the admin API over Groups, Targets, Users,
--               Tokens and AppLog, and the requests to them behind admin_required.
-- Tokens        app/api_tokens.py, app/app_settings.py, and _gate of
--               app/routes/external_api_routes.py.
-- AppLog        app/app_logger.py: the ring buffer and its queries.
-- LogHistory    app/log_stats_history.py: the table of rollups.
-- LogStats      app/log_stats_cache.py: silent devices, one poll cycle and the read-through.
-- FazHealth     app/faz_health_cache.py: the health cards, one poll cycle and the read-through;
--               FazHealth.Query has the SNMP query.
-- ThreatStats   app/threat_stats_cache.py: the figures of one target, their merge over the fleet, and in
--               ThreatStats.Hours the window of the business hours.
-- ThreatHistory app/threat_stats_history.py: the table of threat rollups.
-- Collector     app/collector.py with app/collector_store.py: the process that polls and the workers that
--               answer from its snapshots, over LogStats and ThreatStats.
-- Summary       app/routes/external_api_routes.py: the parts of the executive summary, from the caches
--               of FazHealth, LogStats and ThreatStats and the two histories. Summary.Route is the route.
--
-- State is a record that each operation takes and returns: the content of a JSON file (absent,
-- unreadable, or a value) for a store, the module's dictionaries for the limiter, the cache, the
-- snapshot and the rows of the history for a poller. Exceptions are values of Result or of Reply. A
-- Python dict is an association list in insertion order; a set is a list without repetition.
--
-- Parameters, as the code takes them from elsewhere: bcrypt, SHA-256, the random values of a token,
-- the JWT and cryptography libraries, the ipaddress module, urlparse and url_for, the clock (a reading
-- for each time that it is read), the answers of FortiAnalyzer (one for each request), the SNMP
-- library, the rounding of floats, the pattern of a disk usage text, the time zones with the reading of
-- ISO 8601, and the tables of Unicode behind lower, upper, isdigit, isupper and islower. Times are
-- whole ticks; a difference with a bound is written as a sum, since natural numbers have no negative.
--
-- The polling loop of FazSearch runs on fuel; one more than the timeout in ticks is enough where the
-- clock moves between two readings. The loop of Revocations.Fetch runs on two more rounds than the
-- bytes that are allowed, since each read gives one at least. All other loops are structural.
--
-- Not modelled: the Flask application, blueprints, templates and HTTP (glue around the functions
-- here), threads and schedulers, SQLite with the columns that an older table lacks, the file system
-- below the stores, host metrics, the configuration, the command line tools and the start-up code, and
-- the bodies of the requests to FortiAnalyzer.
pub mod Shared
pub mod Users
pub mod Admin
pub mod Groups
pub mod Targets
pub mod Login
pub mod Revocations
pub mod FazClient
pub mod FazErrors
pub mod LogSearch
pub mod LogUsage
pub mod Sessions
pub mod Sso
pub mod Sync
pub mod Tokens
pub mod AppLog
pub mod FazSearch
pub mod FazHealth
pub mod LogHistory
pub mod LogStats
pub mod ThreatStats
pub mod ThreatHistory
pub mod Summary
pub mod Collector
pub mod Csrf
pub mod SignIn
