-- ===== src/Lib.antt =====
-- The request client, a TypeScript HTTP client: its request pipeline with hooks and interceptors, its
-- resilience plugins, which limit, queue, retry and cut off requests, and its decoders of streamed
-- responses.
--
-- Parts. The client hands each request to the pipeline (src/core/Pipeline.ts), which runs the hooks
-- that the installed plugins registered: `onRequest` before a logical request, `onTransport` before
-- each attempt, `onRetry` after a failed one, and `onSettled` at the end. A plugin keeps its own
-- state, shared by the clients it is installed in, and returns a teardown from `install`. Here each
-- plugin is a state with one function for each hook, for its timers and abort signals, and for its
-- teardown; a history of the plugin is a list of such calls, run one after the other, as the
-- single-threaded event loop does. What a hook throws is its answer.
--
-- Circuit models src/plugins/circuitBreakerPlugin.ts. Circuit/Options has `normalizeOptions`;
--   Circuit/Record one circuit, with `transition` and what successes and counted failures do;
--   Circuit/Table the map of circuits, `createCircuit`, `trimCircuits`, `getState` and `reset`;
--   Circuit/Hooks the hooks, `applyFailure`, `finishAdmission`, `install` and its teardown. A record
--   that an admission holds by reference is a cell of a store, so that a record which was evicted or
--   reset lives on for its admissions. `step` and `run` are the calls and histories. The observer
--   `onStateChange` is a list of events; `createKey` and `shouldCountFailure` are the caller's, and
--   what they answer is part of a call. An admission that a teardown released is out of the list of
--   live ones, which stands for the flag `released`; it is out of reach for `onSettled`, whose only
--   effect on it in the source is to drop it.
-- Queue models the doubly linked wait queue that src/plugins/concurrencyPlugin.ts and
--   src/plugins/rateLimitPlugin.ts share, `appendQueue`, `shiftQueue` and `removeQueuedEntry`, on a
--   heap of entries. The two limiters below use the list that such a queue stands for.
-- Limits models the option normalisation of these two plugins.
-- Concurrency models src/plugins/concurrencyPlugin.ts: Concurrency/State its records, admissions and
--   hooks, with the timer and the abort signal of a queued request; Concurrency/Teardown `install`,
--   its teardown, and the calls. A hook may run behind the teardown of its installation, as a list of
--   hooks that was read before lets it; the theorems on histories exclude that for request hooks, since
--   the source then loses a permit. Its other modules are proofs, of the requests, the releases, the
--   departure of an installation, and whole histories.
-- RateLimit models src/plugins/rateLimitPlugin.ts: RateLimit/State the record of a key with its
--   rolling window, `pruneTimestamps`, `schedule`, `drain`, the `onTransport` hook, the timer and
--   `observeRetryAfter`, RateLimit/Histories the calls of a key; RateLimit/Table the map of the records,
--   `getRecord`, `trimRecords`, `getState` and the teardown, RateLimit/Keys the calls of all keys. Its
--   timer is the time at which it fires. The calls of hooks say whether the installation is still there.
-- Retry models src/plugins/retryPlugin.ts: Retry/Options `normalizeRetryOptions` and the override by
--   a request; Retry/Server `parseServerRetryDelay`, with the headers' lookup and `Date.parse` as
--   parameters; Retry/Decision the `onRetry` hook, with the points at which it looks for an abort and
--   the readings of the clock as an argument, and `Math.random() * d` as a parameter. Time is in
--   units so small that every duration is a whole number of them.
-- Hooks models src/interceptors/: Hooks/Runners how PluginHooks.ts and InterceptorManager.ts run hooks
--   and interceptors, Hooks/Entries and Hooks/Registry the managers, their entries by id and the order
--   that `refreshOrder` leaves, Hooks/RawResponses `onResponse` with its count, and Hooks/Scope
--   `createScopedInterceptor` of src/plugins/PluginScope.ts. A hook is a function of the context and of
--   a world that holds all else it may change; it answers with the fields of the context that it wrote
--   and with what it threw.
-- Pipeline models src/core/Pipeline.ts: Pipeline/Parts what it calls, in a record `Client`,
--   Pipeline/Responses `processResponse`, `fail`, `recoverFromError` and what they call,
--   Pipeline/Attempts the loop of `executeLifecycle`, Pipeline/Execution its other parts and
--   `executeConfigured`, and Pipeline/Retries a client with the hook of Retry. The adapter, the
--   validations and the waits are functions of the client that take and leave the world. The source
--   returns what `fail` and `recoverFromError` give without waiting for it; here they run to their end
--   before the settled hooks, as they do where they meet no promise.
-- Stream models src/utils/parseStreamingResponse.ts: Stream/Lines `decodeLines`, Stream/Events
--   `decodeServerSentEvents` with the observer of src/client/reconnectSse.ts, and Stream/Ndjson
--   `decodeNdjson`. Texts are lists of code points; what the reader and the text decoder give is a
--   list. Stream/Reference describes the lines of a text that is there at once.
-- Headers models `mergeHeaders` of src/core/ConfigMerger.ts with what it calls: header fields are a list
--   of names and values, in which `find`, `put` and `remove` stand for a lookup, `setHeader` and `delete`.
--   Headers/Normal has the headers of `mergeConfig`, which copies those of trusted defaults.
-- Config models other parts of that file: Config/Extensions `mergeExtensions`, Config/Bodies
--   `hasBodyConfig`, `hasBodyValue` and `mergeBodyConfig`, and Config/Spread the spread of two objects.
-- Sse models src/client/reconnectSse.ts and src/client/observeSse.ts: Sse/Reconnect
--   `validateSseReconnect`, the loop of `reconnectSse`, which reads a body by Stream/Events, and
--   `reconnectConfig`; Sse/Observe the observer's `notify` over a whole stream. The network, the waits
--   and the abort signal are functions of a world. Sse/Resume joins `reconnectConfig` with Headers.
-- Auth models src/plugins/authPlugin.ts: Auth/Tokens the resolution of the token and the header, over
--   providers and a storage that are functions of a world; Auth/Refresh the shared refresh, its state
--   with one function for each piece of code between two promises, and a step relation over them. The
--   refreshes have numbers, so one that the plugin forgot can still end. `new Headers` is a parameter.
-- Plugins models the installation of plugins: Plugins/Cleanups `cleanup` and `once` of
--   src/plugins/PluginScope.ts, Plugins/Installed `use` and `unuse` of src/client/Client.ts with
--   `validatePlugin` and `findDependent`. What a plugin's `install` does is an argument: the cleanups of
--   its registrations, and what it returns or throws. A name that was found counts if it is not empty.
--   All cleanups go through `once` here; those of interceptors do not in the source, and find nothing to
--   eject the second time.
-- Cache models the in-memory store of src/plugins/cacheStores.ts: Cache/Memory the class
--   MemoryCacheStore, its map a list of entries in the order of use, and Cache/Usage
--   the plain list that it comes to.
-- CachePolicy models src/plugins/cachePolicy.ts: CachePolicy/Directives the items of a Cache-Control
--   header, with `trim`, `split` and the regular expressions on texts written out; CachePolicy/Policy
--   `resolveRequestCachePolicy`, `resolveResponseCachePolicy` and what they call.
-- Base has what they share: JavaScript maps in insertion order, numbers with NaN and the infinities,
--   and the loop that trims a map.
--
-- Bounds and fuel. Times, counts and timeouts are natural numbers, since `Date.now()` gives whole
-- milliseconds; outside Retry a fractional duration is rounded up, which no comparison with a whole
-- time can tell apart. The loop of `trimCircuits` deletes an entry in each round, so the size of
-- the map is fuel enough. The clock stands still during a call, where the source reads it anew in
-- each `schedule`; then `schedule` and `drain` call one another at most twice, as RateLimit/Wakeups
-- shows for an interval of at least one, and fuel 2 is enough. The teardown of the limiter releases
-- one admission in each round, so their number is fuel enough. The attempts of a request run on
-- fuel, and Pipeline/Settled shows that one more than the retries that its hooks allow is enough.
-- So does the loop of `reconnectSse`, where Sse/Bounds shows that one more than maxAttempts is
-- enough. All other loops are structural.
--
-- Not modelled: failures of `addEventListener` and `setTimeout` themselves; what the caller's own
-- functions throw in a retry decision; of the pipeline, the total timeout, the times it records and
-- a recovery behind a promise; of streams, closing one before its end; of authentication, the abort
-- of a request that waits for a refresh; of the merging of configurations, the query, the context
-- and the options of fetch; and the parts of the client that do I/O or belong to other plugins: the
-- adapters, the other caches, the lifecycle of cached responses, transfers and telemetry.
pub mod Base
pub mod Circuit
pub mod Queue
pub mod Limits
pub mod Concurrency
pub mod RateLimit
pub mod Cache
pub mod Hooks
pub mod Pipeline
pub mod Stream
pub mod Headers
pub mod Sse
pub mod Auth
pub mod CachePolicy
pub mod Plugins
pub mod Config
pub mod Retry
