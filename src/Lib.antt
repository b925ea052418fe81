-- ===== src/Lib.antt =====
-- Verification of the server and the stores of Fleetsweeper, a scanner that compares a fleet of Kubernetes
-- clusters and reports what drifts.
--
-- A scan collects results from every cluster, a report turns them into findings, and the server stores both
-- and answers requests about them. Who may ask is decided by the authentication middleware from the stored API
-- keys, how often by the rate limiter. Operators acknowledge findings, which hides them until a snooze runs
-- out, and webhooks carry new findings to other systems. An admission webhook holds a new pod against the norm
-- that the last scan of the fleet shows.
--
--   Store/Sql        a database connection: internal/store/sqlstore.go as the operations use it. An operation
--                    takes the connection and returns its result and the connection after it. `Conn.faults`
--                    says of each coming statement whether the database fails it; a statement that fails
--                    changes nothing. Past the end of the list every statement works, so that a theorem about
--                    any list of faults covers any failures.
--   Store/Time       instants in nanoseconds since Go's zero time, and the whole seconds that the tables hold
--                    as RFC 3339 texts.
--   Store/Acks       internal/store/acks.go: the table of acknowledgements, keyed by fingerprint.
--   Store/ApiKeys    internal/store/apikeys.go: the table of API keys, keyed by id, with a unique token hash.
--   Server/RateLimit internal/server/ratelimit.go: token buckets by client and class of request. Tokens are
--                    counted in parts of which a token has as many as a minute has nanoseconds, so that a
--                    refill is exact where the program's float64 rounds.
--   Server/Auth      internal/server/auth.go and the end of decodeSession in internal/server/oidc.go: the
--                    middleware, who a request resolves to, and the clusters in an actor's scope.
--   Webhooks         internal/webhooks/webhooks.go: the check of a config, and dispatches one after another.
--                    Each request takes the next answer of a list that the dispatcher holds.
--   Names            SanitizeName, Truncate and Plural of internal/util/text.go.
--   Report           the fields of a finding, the severities of internal/util/text.go, the fingerprints of
--                    internal/util/fingerprint.go and the recurrence of findings in internal/report/persistence.go.
--   Server/Events    internal/server/events.go: the event bus, each call one step of an interleaving.
--   Server/ReportCache
--                    internal/server/report_cache.go: the cache of rebuilt reports over any type of report, and
--                    the key that it makes of the build options.
--   Seal             internal/seal/seal.go, and Bundle and VerifyBundle of internal/seal/bundle.go: the manifest of
--                    an export bundle, its signature and their check, byte by byte.
--   Store/Tags, Store/Audit, Store/Alerts
--                    internal/store/tags.go, audit.go and alerts.go: the tables of cluster tags, of the audit log
--                    and of inbound alerts; Store/Listing orders and cuts what they list.
--   Server/TagFilter internal/server/tag_filter.go: the clusters that a request's wanted tags let through.
--   Server/TagHandlers
--                    internal/server/tags_handler.go: setting, deleting and listing tags.
--   Server/AckHandlers
--                    internal/server/acks_handler.go: the handlers of acknowledgements and their scope checks,
--                    over the tables of acknowledgements and alerts.
--   Server/AuditTrail
--                    internal/server/audit_middleware.go: the audit entry of a request that changes state.
--   Server/ScanTrigger
--                    internal/server/inbound_webhook.go, with startBackgroundScan and resolveContexts of handlers.go:
--                    scans that a signed webhook starts.
--   Server/AdminKeys internal/server/admin_keys_handler.go: making, listing and revoking API keys.
--   Server/AlertHandlers
--                    internal/server/alertmanager_handler.go: the webhook of AlertManager and the listing of alerts.
--   Report/Coverage  internal/report/observe.go and the coverage in score.go: which scanners observed which
--                    cluster.
--   Report/Scores    internal/report/score.go, cluster_score.go and score_attribution.go: the ledger of costs, a
--                    cluster's score and the fleet's.
--   PodSecurity      internal/podsec/podsec.go: what a pod's security contexts amount to.
--   Admission        internal/admission: the checks, the norm derived from a scan, its providers and the handler
--                    of one review.
--   Scanner/Paging, Scanner/TopN
--                    internal/scanner/paging.go and topn.go: a paged list over any answers of the apiserver.
--   Compare          internal/compare/compare.go: what differs between two reports.
--   Common           lists, maps and Boolean tests. Go maps and keyed tables are association lists.
--
-- A component's module holds its state and operations, and the modules below it what is proved of them and,
-- in Examples, runs of the operations.
--
-- Hash functions, regular expressions, templates and JSON texts are parameters of the definitions that use
-- them. The loop of ListAll runs on fuel, which Scanner/Paging/Restart shows to be enough where it is twice the
-- number of pages; every other loop of the modelled code runs over a list. Costs and fractions that the program
-- keeps as float64 are counted exactly, in the parts that each module names. Sums of the counts that
-- scanners report wrap at 64 bits where the norm of a fleet is made of them; counts of what a list holds do
-- not.
--
-- Not modelled: what the scanners ask the Kubernetes API and decode, the findings computed from
-- floating-point statistics, the HTTP plumbing around the handlers, the SQL dialects and migrations, the
-- OpenID Connect login flow, the command line, the browser dashboard and the reports' HTML.
pub mod Common
pub mod Names
pub mod Report
pub mod Store
pub mod Server
pub mod Webhooks
pub mod Seal
pub mod PodSecurity
pub mod Admission
pub mod Scanner
pub mod Compare
