-- ===== src/Lib.antt =====
-- A model of uns-kit, a TypeScript kit for services on a unified namespace: MQTT transport with persistent and
-- throttled queues, the handover between processes, topic building and matching, SQL parameters, and parts of the
-- assistant workflow.
--
-- The parts and how they interact. A proxy publishes through a publisher and receives through a subscriber
-- (packages/uns-core/src/uns-mqtt/throttled-queue.ts); when durable output is configured, messages pass through
-- the output queue (packages/uns-core/src/uns-mqtt/publish-queue.ts), which keeps them in memory and in an SQLite
-- store (publish-queue-store.ts) until the broker has confirmed them. When a process is replaced, its subscriber
-- hands over a cursor, and the successor looks in its own buffer for the place where the input of its predecessor
-- ends (packages/uns-core/src/runtime/input-queue-boundary.ts). The manager of the handover
-- (packages/uns-core/src/uns/handover-manager.ts) of the new process asks the old one for its state on a topic of
-- the broker; the state is of the proxies and of the application
-- (packages/uns-core/src/runtime/mqtt-handover-state.ts, application-handover-state.ts there). Topics are built by
-- packages/uns-core/src/uns-mqtt/mqtt-topic-builder.ts and matched by
-- packages/uns-core/src/uns/uns-topic-matcher.ts. The database package compiles named parameters to the
-- placeholders of a dialect (packages/uns-database/src/params.ts). The assistant workflow package bounds its runs
-- (execution-budget.ts), caches the results of tools (tool-result-cache.ts), decides on direct routes
-- (direct-route-policy.ts), binds the tools of a workflow to servers (tool-bindings.ts, tool-capabilities.ts),
-- selects them by rules (tool-selection-rules.ts) and plans its runs (execution-plan.ts with execution-policy.ts).
--
-- The files. Kit holds what all share: Boolean tests and lists on the native numbers, texts, and `Result` for a
-- function that may throw. Topics/Split, Topics/Matcher and Topics/Builder are the topics. PublishQueue/Records
-- has the data of the output queue, PublishQueue/Store its store, PublishQueue/Queue its state, its checks and
-- `enqueueOrThrow`, PublishQueue/Delivery the run loop, failures, `becomeActive`, `waitForIdle` and `close`, and
-- PublishQueue/Machine puts the calls and callbacks in any order; the other files there are proofs. Throttled has
-- `ThrottledQueue`, Throttled/Publisher and Throttled/Subscriber its two subclasses, each with a Machine.
-- InputBoundary has `uniqueInputBoundary`. SqlParams has the characters and the state of `compileNamedParams`,
-- SqlParams/InList its regular expression, SqlParams/Compile what replaces a parameter, SqlParams/Scan the loop.
-- Throttled/Ends is about its loop. Budget, ToolCache, DirectRoutes, Tools, ToolRules and Plan are the parts of
-- the assistant workflow, and Readiness is packages/uns-core/src/uns-mqtt/subscription-readiness.ts. Migration is
-- the end of a process: packages/uns-core/src/runtime/process-work.ts, mqtt-drain.ts there, and
-- uns/handover-shutdown.ts. AppState has `cloneApplicationHandoverState`, HandoverState the state of all proxies,
-- HandoverState/Schema its schema.
--
-- Handover has the records of the handover manager: Handover/Messages what it reads in a message, Handover/Source
-- the process that gives, Handover/Target the one that takes over, Handover/Handle the handling of a message and
-- of each timer. `Manager` holds the variables of the class, `Input` has one constructor for each segment between
-- two awaits, with what the awaited calls gave, and `step` handles an input. Published messages, calls of the
-- proxies and exits are appended to `outputs`. Handover/Local is about the steps of one process, Handover/System
-- about processes in any number: the network is what the processes have published, a message may arrive never,
-- late or often, and any other message may arrive but for a fin or an acknowledgement that nobody has sent.
--
-- Asynchronous code. What runs between two awaits is one function on the state; the end of an await (a send that
-- is confirmed or fails, a timer, a handler that returns or throws) is another, and an event list gives their
-- order. A promise that is settled is listed in the state. A thrown error is a value of `Result`.
--
-- Fuel. The loop of `processQueue` has one turn for each item of the queue and one more to end, and each call
-- takes an item; the scanner of statements has one turn for each character, and every turn reads one; chunks are
-- as many as values at most; a decimal number has no more digits than its value and one.
--
-- What is not modelled: files, SQLite and the broker itself, logging, hashes and fingerprints (they are
-- parameters, as are the number of bytes of a JSON text and the test for a date), JSON texts, and the components
-- that the manifest lists as such. Nor is a `becomeActive` of the output queue between the start and the end of
-- its `close`, nor a sparse array or further keys of an array in the state of an application.
pub mod Kit
pub mod Topics
pub mod PublishQueue
pub mod Throttled
pub mod InputBoundary
pub mod AppState
pub mod HandoverState
pub mod Handover
pub mod ToolRules
pub mod Tools
pub mod Plan
pub mod Budget
pub mod ToolCache
pub mod SqlParams
pub mod Readiness
pub mod DirectRoutes
pub mod Migration
