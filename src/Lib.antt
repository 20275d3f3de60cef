-- ===== src/Lib.antt =====
-- Istanbul MCP, a read-only Model Context Protocol server over Istanbul's open data: the parts of the
-- Python server that decide who is served, how often, and from what.
--
-- A request passes, from the outside in, the API key check, the abuse guard, the daily quota and
-- the JSON-RPC guard before it reaches the MCP application. Tools there fetch from city sources
-- through a token bucket for each source, and keep what they fetch in the shared source cache. Two
-- of them answer from tables of their own: the departures come from a timetable that is loaded,
-- checked and published as a whole, and a query in SQL runs over a captured table in memory.
--
--   Prelude            shared names; Dict is Python's dict with text keys, Bytes its text functions
--   Guard.Clients      app/core/abuse_guard.py, ClientRateLimiter
--   Guard.Concurrency  app/core/abuse_guard.py, ConcurrencyLimiter
--   Guard.Middleware   app/core/abuse_guard.py, McpAbuseGuardMiddleware; Body is one whole call with
--                      limited_receive, Slots is many requests that overlap
--   Cache              app/core/source_cache.py, SourceTTLCache; Serve has its public methods
--   Bucket             app/core/rate_limit.py, AsyncTokenBucket
--   Quota              app/storage/quota.py, DailyQuota
--   Auth               app/core/api_auth.py; Pipeline is the order of middlewares of app/main.py
--   Retry              app/connectors/http_retry.py
--   Validation         app/core/validation.py
--   Telemetry          app/core/tool_telemetry.py; Classify reads a tool's result, Balance is many calls
--                      that overlap
--   Snapshot           app/services/datastore_sql.py, DatastoreSqlService._load_snapshot, and validate_fields
--                      of app/storage/guarded_sql.py
--   Sql                app/storage/guarded_sql.py, the checks of a statement and of the cells; Fetch is
--                      execute_snapshot_query with its authorizer and its loop
--   Sql.Service        app/services/datastore_sql.py, DatastoreSqlService.query
--   Envelope           app/core/envelope.py and app/core/error_responses.py
--   Transport          app/core/mcp_transport.py, and McpCorsMiddleware.__call__ of app/core/cors.py
--   Timetable          the published timetable: the rows of its tables
--   Timetable.Fields   app/connectors/gtfs_schedule.py, the readers of fields, and parse_gtfs_coordinate
--                      of app/connectors/gtfs.py
--   Timetable.Rows     GtfsScheduleClient._values of the same file
--   Timetable.Staging  its _ingest and _insert, with the trigger of the staging tables
--   Timetable.Relations  its _validate_relations and _finalize
--   Timetable.Resources  its schedule_url and select_resources
--   Timetable.Load     its load and _download, from the chosen resources to the publication
--   Timetable.Publish  app/storage/gtfs_schedule.py
--   Timetable.Departures  app/services/gtfs_schedule.py, GtfsScheduleService._query
--   Timetable.Service  the same file: the warm-up, the checks of a request and next_departures
--   Timetable.Search   app/services/stop_search.py
--   Services           what app/services share: decoded JSON, normalize_place of app/services/places.py,
--                      and app/core/geo.py; Page is how rows are sorted and cut off
--   Services.Pharmacy  app/services/pharmacy.py and the payload of app/connectors/ibb_pharmacy.py;
--                      Near is its two tools
--   Services.Water     app/connectors/iski.py: its checks and snapshots; Chain is active_faults and
--                      dams, Official the loop over the districts of the official API,
--                      and Service the tools on faults of app/services/iski.py
--   Services.Disruptions  app/services/disruptions.py
--   Services.Accessibility  app/services/metro_accessibility.py, with _normalize_token of
--                      app/connectors/metro.py; Status is MetroAccessibilityService.status
--   Services.Facilities  app/services/social_facilities.py, _load_snapshot, with canonical_identity of
--                      app/connectors/social_facilities.py
--   Tests              the theorems at concrete inputs
--
-- State is passed explicitly: a method returns the new object beside its result. What asyncio runs
-- between two awaits, or under one lock, is one step, and tasks interleave as lists of steps.
-- Floats: times are whole nanoseconds (the cache's unit is free), rates are millionths of a token per
-- second and a token is 10 ^ 15 units, so that the code's products are exact; the rounding of
-- binary floats is not modelled, and a quotient is kept as its two terms until it is rounded.
-- Texts that are only compared are native strings; headers and keys are lists of code points.
-- A loop that shrinks a dict takes the number of its entries for fuel, which is enough since each
-- pass takes one out; the capture of a snapshot takes as many turns as the source reports rows.
-- A table of SQLite is the list of its rows in the order of insertion, a statement a function on it,
-- and its keys and triggers tests on the rows at hand. Calendar dates are the number of their eight
-- digits, instants are microseconds of Istanbul wall time.
-- A tool of a source takes what the cache gives back as an argument. Python's functions on texts,
-- numbers and hashes that these tools call are the fields of one record, Services.Python.
-- Digests, clocks, loaders, codecs, Unicode tables, applications and SQLite's errors are arguments.
--
-- Not modelled: the services and connectors of the other sources (app/services, app/connectors),
-- among them ferries, cards, city data and transit lines, and their requests and texts; the relays,
-- the registry of tools and the settings, which declare and wire; status reports and logs; the
-- OPTIONS reply and the URL checks of app/core/cors.py; the loop watchdog; and inside the modelled
-- parts the texts of messages, the time budgets within a step, and what SQLite, sqlglot, httpx and
-- pydantic do themselves.
pub mod Prelude
pub mod Guard
pub mod Cache
pub mod Bucket
pub mod Quota
pub mod Auth
pub mod Retry
pub mod Validation
pub mod Telemetry
pub mod Snapshot
pub mod Envelope
pub mod Transport
pub mod Timetable
pub mod Sql
pub mod Services
pub mod Tests
