-- ===== src/Lib.antt =====
-- The Coraza Kubernetes operator: a model of its parts, with the theorems that make them correct.
--
-- The operator reads RuleSets, aggregates the rules of their RuleSources and the files of their
-- RuleData, checks the result with Coraza, and puts it into a cache in memory. A server hands the
-- cached rules to the WebAssembly plugins of gateways, which authenticate with service account tokens.
-- The reconciler of RuleSets writes the cache (Put); the server reads it (Get) and its garbage
-- collection shrinks it (Prune, PruneBySize); the conditions of a RuleSet report the outcome.
--
-- Files and the code that they model:
--   Prelude: Booleans, lists, strings as lists of bytes, Go maps as association lists, sorting.
--   Cache/Store: internal/rulesets/cache/cache.go. RuleSetCache is the record of entries, totalSize and
--     totalEntries; Get, Put, Len, ListKeys, CountEntries, Prune, PruneBySize and entrySize are
--     functions of it. Every method locks, so a run of the program is a sequence of calls (`run`). A
--     map is iterated in the order of its list, and a theorem about a loop over a map holds for every
--     order of the list. The UUID and the time are arguments of Put.
--   Cache/Auth: internal/rulesets/cache/auth.go. Authenticate, its cache with expiry times, its
--     counter cacheSize and its eviction. The TokenReview API is the parameter `Review`. An
--     interleaving of requests is a sequence of the two sections that touch the cache.
--   Cache/Server: internal/rulesets/cache/server.go, handleRules, authenticateRequest,
--     extractBearerToken, handleLatest, handleGetRules, DefaultGC and one tick of rungc, and
--     handlerLabel of internal/rulesets/cache/metrics.go. JSON and the format of timestamps are
--     parameters (`Encoding`).
--   Cache/Metrics: instrumentHandler and statusCapture of internal/rulesets/cache/metrics.go, one request
--     at a time. A handler is the calls of its response writer, after which it may panic.
--   Cache/UseMetrics: RegisterUSEMetrics of internal/rulesets/cache/metrics_use.go, as a state machine on
--     the map of registrations and the collectors that the registries have accepted.
--   RuleSets/Unsupported: internal/rulesets/unsupported.go, with the registry as it is written, the
--     regular expression as a function over the text, and strconv.Atoi with its limit of 2^63 - 1.
--   RuleSets/MemFs: internal/rulesets/memfs/memfs.go and getDataFilesystem of
--     internal/controller/ruleset_controller_secret_data.go.
--   Controller/Conditions and Controller/Errors: internal/controller/utils.go, the conditions, their
--     transitions, the notes of events, and the messages about missing files. The functions of
--     apimeta are the parameter `ConditionList` with their documented laws, and an error is what
--     errors.As and errors.Is find in it.
--   Controller/RuleSet: internal/controller/ruleset_controller.go and its parts _rule_aggregation,
--     _validation and _cache. The API server and coraza.NewWAF are the parameter
--     `Cluster`; the state is the conditions in the cluster, the events, the log and the cache.
--   Controller/Tokens: internal/controller/engine_controller_token.go, the store of cache client tokens.
--     The 0.8 of tokenRenewalFraction is taken exactly, which float64 does for lifetimes below 2^50
--     nanoseconds, 13 days; the code asks for tokens of one hour.
--   Controller/Policies: internal/controller/engine_controller_network_policy.go and
--     targetLabelSelector of engine_controller_target.go. The API and the functions on finalizers are
--     parameters; the state is the policies by name and the finalizers of the Engine.
--   Controller/Engine: internal/controller/engine_controller.go, engine_controller_wasm_driver.go and
--     ensureCacheClientServiceAccount of engine_controller_token.go. The state is the conditions, the
--     finalizers, the policies, the tokens and the plugin.
--   Controller/Watches: the watches of both reconcilers, in ruleset_controller_watch_predicates.go,
--     engine_controller_map_funcs.go, engine_controller_utils.go, engine_controller_network_policy.go
--     and utils.go of internal/controller. The client's lists and the selectors are the parameter
--     `Reader`, the predicates of controller-runtime the parameter `Library`.
--   Controller/Istio: internal/controller/engine_controller_istio_prerequisites.go and serverSideApply
--     of utils.go. The state is the list of the objects that the API server has accepted.
--   CoreRuleSet: tools/corerulesetgen, the program that makes Kubernetes manifests of the OWASP rules.
--     Blocks and Chains are its reading of SecLang, Process (rules.go) drops unsupported directives and
--     the chains that ignored rules belong to, Validate and Render are the files of the same names,
--     Build and Generate are build.go and generator.go. The file system, the %q of fmt and the checks
--     of Kubernetes names are the parameter `Host`. A run is what it writes on two streams with its
--     result, and `Writer` says which write to stdout fails, and after how many bytes.
--   ProjectManager: tools/github_project_manager. Triage is triage.go, Client and Projects are
--     github.go, Commands is main.go with the commands that it dispatches. HTTP, JSON and PathEscape
--     are the parameter `Network`, the semver package is `Semver`, flags and environment are
--     `Setting`. An `Exec` is a function of the requests that were sent before it, and gives those
--     sent after it with its result.
--
-- A method of the code that may end the reconciliation early returns `stopped` with the error, and
-- `loaded` where it goes on. The loops are recursions over lists. Only the decimals of a number n, for
-- %d and Itoa, run on fuel, with n + 1 for the digits of n (RuleSets/Unsupported/Decimal). Integers of
-- the code are natural numbers: sizes are sums of lengths of strings in memory, and ages are
-- differences of clock readings that do not go back.
--
-- Not modelled: the listening socket and the shutdown of the server, the prometheus metrics but for
-- those of requests and of the garbage collection, and free text in the logs. Coraza's NewWAF, which
-- reads the file system of the data files, is the parameter new_waf of `Cluster`, which takes the
-- files themselves. The flags and the start of the manager (cmd/manager), the kubectl plugin and the
-- log lines of the tools are not modelled.
mod Prelude
pub mod Cache
pub mod RuleSets
pub mod Controller
pub mod CoreRuleSet
pub mod ProjectManager
