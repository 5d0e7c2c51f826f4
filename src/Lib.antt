-- ===== src/Lib.antt =====
-- Verification of provider-core, a proxy that routes requests for language models to provider
-- accounts, reads the usage that the providers report, and computes what each request cost.
--
-- Usage models the normalization of reported token counts (crates/provider-core/src/usage):
-- Token, Cache and Contract hold the data, Raw the extraction of counts from a JSON value, whose
-- type and access functions are a parameter, and Normalize the function `normalize_usage` with the
-- order of its warnings. A metric's count is a `u64`, which the normalization adds and subtracts
-- with `checked_add` and `checked_sub`.
--
-- Cost models prices and costs (crates/provider-usage/src): Money the checked `i128` arithmetic,
-- Price the price records and the choice of a context tier, Pricing the decimal texts and the
-- saved prices of a model (`parse_unit_price`, `model_price_resolution`), Observed the cost of an
-- observation (`compute_observed_catalog_cost`) and Maximum the bound that is computed before
-- dispatch (`compute_maximum_text_request_cost`). Nonneg says which prices are not negative.
-- Below Pricing, Exact is about the number of a decimal text and Tiers about the choice of a tier.
--
-- Sse models the decoder of server-sent events (crates/provider-protocol/src/sse.rs) that the
-- conversions and the usage observer read from: `SseDecoder::push` and `finish`. The loop of
-- `push` runs on the length of its buffer as fuel, and each round shortens the buffer.
--
-- Router models the routing of requests to accounts (crates/provider-runtime/src/router.rs).
-- Bindings is the map of the accounts that own a response id (`ResponseBindings`), with a queue
-- for its expiry; the loops of `remove_expired` and `insert` are recursions on the queue. Accounts
-- holds the data of an account and the guard of the loop in `routes`, Candidates that loop and the
-- sort, RoundRobin `rotate_round_robin`, Routes the state (`RouterInner`) with `routes`, and Updates
-- the other operations on the state: `replace_account_models`, `remove_account`, the updates of an
-- account, `commit_session_affinity`, `record_route_failure_with_retry_after`,
-- `record_route_success` and `bind_response_id`. A map is the list of its entries, an `Instant` a
-- number of nanoseconds, and an operation one step that reads the clock once. The loop over the
-- tiers runs on the number of routes as fuel. The metadata of a model is JSON, which enters as a
-- parameter. The theorems on the router are in Choice (what holds of every candidate holds of every
-- route), Found (every route comes from the loop over the accounts), Eligibility with Guards (what
-- the tests of the loop mean), Continuation, Removal and Fairness, and on the bindings in
-- Bindings/Expiry, Bindings/Bound and Bindings/Kept (how long a binding is kept in use).
--
-- Tracking models what is recorded of a request (crates/provider-usage/src). Status has the enums
-- of attempt.rs and the merge of the terminals of lifecycle.rs, Price `resolve_attempt_price` and
-- `model_disagrees` of tracking.rs, and Attempt the states of `LogicalTracker` and
-- `AttemptTracker` with their calls, their drops included: `on_event` has a clause for each call of
-- `AttemptTracking`, and what the code submits to the writer and the quota ledger is a list in the
-- state of the request. The panic of the code on a quota total that does not fit an `i128` is the
-- result `none`; its panic in `finish` on a quota permit without an API key is not modelled, since
-- the request holds a permit only where it has an API key. The theorems are in Once (each attempt is recorded once), Returns (closing comes
-- to its end) and Finish (the terminal of the request).
--
-- Report models which prices and which tier threshold a usage report shows of an attempt
-- (`selected_prices` and `selected_tier_threshold` of crates/provider-server/src/usage_http.rs).
--
-- Proxy models the proxy service (crates/provider-core/src/proxy/service.rs). Errors has
-- `ProviderError`, Execution the loop of `PreparedProxyExecution::execute_stream` over the candidates
-- that the router planned, and Linkage `observe_response_id` with its reading of frames. The loop's
-- calls of the router are a list of events, since other requests run between them, and the protocol
-- bridge and the routes are parameters, the traits of the code. The protocol of the execution is
-- spelled out in Execution/Protocol; the theorems are in Execution/Trace, Execution/Calls and
-- Linkage/Binds.
--
-- Writer models the bounded writer of usage facts (crates/provider-usage/src/writer.rs): `submit`
-- with its tally, and the task with `apply` and `flush_shed`, whose steps interleave with the
-- submissions. A reply of the repository is part of the step that gets it. Counts have no bound,
-- where the code's are `u64`. The theorems are in Account and Bounds, and Bucket is about
-- `gap_bucket`. The mutex of the tally is never poisoned, since nothing panics while it is held. The bounded channel of tokio is a list of
-- jobs with a capacity: `try_send` fails where it is full or closed, and `recv` takes the first job.
--
-- Runtime models one execution on an account (`execute_entry` of
-- crates/provider-runtime/src/runtime.rs) with its second call after a refresh of the credentials or
-- a change of the request. The calls are numbered 0 and 1, and an attempt is the number of its call.
-- A cancellation inside the execution is not modelled; there the trackers are dropped, which is in
-- Tracking.
--
-- UsageObserver models the observer of the usage in a stream
-- (crates/provider-protocol/src/usage_observer.rs): Facts reads a frame, and the parent module is the
-- state of the stream, on the decoder of Sse, with its report at the end or at the drop. What it tells
-- the attempt are the calls that Tracking handles. The theorems are in Once and Frames.
--
-- Claude models the conversion of a response's events to those of the Messages API
-- (`ClaudeEventConverter` of crates/provider-protocol/src/claude/response.rs): Blocks opens, fills and
-- closes a block, Items has the items of a response, Convert the `match` of `convert`, and Stream the
-- `ClaudeStreamAdapter` around it, on the decoder of Sse. JSON is a parameter, and an event that is sent is a value of a data type, not the text of `sse_event`. Client
-- is the order of events that a client takes, from the protocol; the theorems are in Replay.
--
-- Grok models the replay of past items to Grok (crates/provider-drivers/src/grok/replay.rs): Cache the
-- entries with `store_entry` and `entry`, Stream what is stored of an observed stream, References the
-- expansion of references, Body the input of a request with `inject_replay_items`, and Prepare
-- `prepare_request`. JSON is a parameter, and a body is its input and its `previous_response_id`. The map is the list of its entries, and where two were stored at one
-- instant the order of the list decides, which the code leaves open. `prepare_request` reads the cache
-- twice, between which other requests change it, so the model takes two readings. The theorems are in
-- Kept, Valid, Own, Stored with Spared (what the later uses of the cache leave), and Complete with
-- Paired (what a complete request is).
--
-- Retention models a cycle of the removal of old facts (`RetentionWorker::run_once` of
-- crates/provider-usage/src/retention.rs). The repository is a parameter; a loop runs on the number of
-- its rounds as fuel. A loop with a batch of 0 would not end, and the code's batch is 500. The theorem
-- is in Drain.
--
-- The helpers that the parts share are in Prelude. Not modelled: the HTTP clients and JSON
-- conversions of the drivers, SQL storage, the server, authentication and management, which call
-- libraries outside the repository, and the printing of amounts for reports.
mod Prelude
pub mod Usage
pub mod Cost
pub mod Sse
pub mod Router
pub mod Tracking
pub mod Report
pub mod Proxy
pub mod Writer
pub mod Runtime
pub mod UsageObserver
pub mod Claude
pub mod Grok
pub mod Retention
