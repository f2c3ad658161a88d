-- ===== src/Lib.antt =====
-- droid-proxy: the account pool for Codex OAuth accounts, the failover of requests between them, the
-- cache of reasoning texts, the forwarding of event streams and headers, the router of model aliases,
-- and the migration of the port in the user's files.
--
-- The program is a local HTTP proxy. A request for a Codex model goes through the failover loop
-- (internal/handlers), which asks the account pool (internal/oauth) for an account, takes a lease on
-- it, sends the request, and marks the account by what the upstream answers. The watcher of the token
-- directory reloads the pool at any time. A chat request for a model of the DeepSeek kind goes past
-- the reasoning cache (internal/reasoning): its stream is copied by the pump of internal/stream, which
-- shows each line to a capture, and the capture is committed to the cache when the stream is over. The
-- headers of every answer pass the filters of internal/upstream. Apart from the requests, a command
-- migrates the port in the config and in the factory settings as one transaction with a journal
-- (internal/migration).
--
-- The files and the code that they model:
--   * Prelude: Booleans, lists, maps as association lists (Prelude/Maps), Go's string functions on
--     native texts (Prelude/Texts), a stable sort (Prelude/Sort), signed integers, floats that are
--     only compared and instants (Prelude/Numbers), and the tables and codecs of Go's library that
--     are parameters (Prelude/GoLibrary).
--   * OAuth/Quota: the quota windows, their merge and their resets: internal/oauth/types.go,
--     quota.go and quota_select.go. Quota/Parsers has the parsers of headers, events and error bodies
--     of quota.go and usage_limit.go, with strconv, float64 arithmetic, encoding/json and gjson as a
--     parameter, and Quota/Usage RecordCodexUsage, where the lock and the file of a token answer by
--     arguments.
--   * OAuth/Account: Token, AccountEntry, entryFromToken, updateEntry,
--     MatchesAccount and accountIneligibleReasons: internal/oauth/pool.go and types.go.
--   * OAuth/Selector: the strategies and the order by quota: internal/oauth/selector.go and
--     quota_select.go.
--   * OAuth/Affinity: the bindings of conversations to accounts: internal/oauth/affinity.go.
--   * OAuth/Pool: AccountPool and its methods: internal/oauth/pool.go. A method is one step, since
--     it holds the pool's mutex; the clock is an argument. Pool/Traces has every interleaving of the
--     methods as a step relation, together with the leases that requests hold; Pool/Snapshot has the
--     report of the pool.
--   * Handlers/Cooldown: codexRateLimitCooldown in internal/handlers/oauth_responses.go,
--     RetryAfterTime in internal/oauth/quota.go and ParseCodexUsageLimitReset in
--     internal/oauth/usage_limit.go.
--   * Handlers/Payload: the body of a request to an OAuth upstream: internal/handlers/oauth_payload.go.
--     Payload has the replay without reasoning items, Payload/Schema the cleaning of tool schemas,
--     Payload/Tools the tools that xAI takes, and Payload/Prepare prepareOAuthResponsesPayload, with
--     applyUpstreamPayloadOverrides of base.go and xaiUsesCLIChatProxy of oauth_headers.go. gjson and
--     sjson are a parameter, with the laws of reads and writes of plain names as a hypothesis.
--   * Handlers/Exchange and Handlers/Failover: responsesViaCodexFailover and codexAuthReplay in
--     internal/handlers/oauth_responses.go. A Round holds what the world answers in one round of the
--     loop: clocks, token files, the HTTP client, the request's context, and what other requests do
--     to the pool before Select, between Select and Begin, and while the request holds its lease;
--     the calls that follow the end of a lease in one round run in one go. What the handler does to
--     the world besides the pool is a list of calls.
--   * Handlers/SingleToken: the request loop of the path without a pool in
--     internal/handlers/oauth_responses.go, and internal/handlers/capacity_retry.go.
--   * Reasoning/Cache: Key, Cache, Store, Lookup and evictLocked: internal/reasoning/cache.go.
--   * Reasoning/Json and Reasoning/Messages: decoded JSON, and KeyForMessage, PatchRequest and
--     CaptureNonStream over it: internal/reasoning/cache.go. encoding/json is a parameter.
--   * Reasoning/Stream and Reasoning/Session: StreamCapture and SessionID: internal/reasoning/stream.go
--     and session.go.
--   * Stream/Forward: the loop of Forward as a run over a schedule of signals (lines, their end, ticks,
--     the idle timer, the end of the context): internal/stream/forward.go. The answers of the
--     downstream writer are a list.
--   * Upstream/Router: Router: internal/upstream/route.go.
--   * Upstream/Headers: the header filters: internal/upstream/headers.go. CanonicalHeaderKey and Split
--     are in Prelude/HeaderNames.
--   * Migration: internal/migration. World holds the user's files, the private files and journals under
--     the state root, and the system's answers to the writes to come: each is done, fails, or ends the
--     process. Targets, Recovery, Transaction and Rollback have the functions of transaction.go, Journal
--     those of journal.go. Migration/Rules has the rules by which a run is followed under any answers,
--     Transaction/Quiet and Transaction/Filed the run in which every write is done.
--   * Migration/Deferred: the record of an upgrade and the migration at the next restart:
--     internal/migration/provenance.go and managed_restart.go. PlanMigration is an argument.
--   * Config: internal/config. Config has the settings, Config/KnownAuth the registry of providers,
--     Config/Models the validation of a model, Config/Defaults the defaults, Config/Validation the
--     validation of all and parse. The YAML decoder, url.Parse and net.ParseIP are parameters.
--   * Samples, and the module Tests of each part: test data and runs at concrete inputs.
--
-- Bounds and fuel. Numbers are naturals where the source's int cannot be negative; the round-robin
-- cursor wraps at 2^64, and a delay in seconds wraps at 2^64 nanoseconds and is signed, as in the
-- source. An instant is the number of nanoseconds since the zero time, and a difference of instants
-- saturates at the largest int64. The failover loop runs on fuel of two more than max_failovers: each
-- round spends an attempt, but for the one that replays the payload without its reasoning items. The
-- second loop of an eviction runs on the number of entries, of which each round deletes one.
--
-- Not modelled: the writing of token files; the bytes of a response, whose quota stands beside its
-- status for the failover; that a subtree of a body decodes and encodes again; the read lock that
-- Lookup of the cache drops before it takes the write lock; texts that are not valid UTF-8; instants
-- before the year 1; logging. In the migration, the analysis and the rewriting of YAML and JSON
-- bytes, whose results are part of a plan, the walk over the directories above a file, whose result
-- is part of the file, and the lock, which is held throughout. In the pump, the scanner that cuts
-- the lines and the clocks behind the timers. Of the rest of the program, the chat handlers,
-- protocol translation, the editing of the configuration, the daemon and the terminal interface are
-- no part of this library.
pub mod Prelude
pub mod OAuth
pub mod Samples
pub mod Handlers
pub mod Migration
pub mod Reasoning
pub mod Stream
pub mod Upstream
pub mod Config
