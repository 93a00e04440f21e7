-- ===== src/Lib.antt =====
-- A verification library for ai-agent-go-service.
--
-- The program runs agent workflows: a workflow file is loaded into a graph of nodes, and each chat
-- turn drives the agent of that graph, which calls language models and tools. The parts modelled:
-- * pkg/workflow/engine/retry (Retry): the bounded retry helper around tool calls and model streams.
--   Retry/Types and Retry/Policy are types.go and policy.go, Retry/Classify is classify.go,
--   Retry/Delay is nextDelay of retry.go, with its jitter in Retry/Jitter, and Retry/Loop is Do.
-- * pkg/workflow/engine/loader (Loader): Loader/Envelope is validateEnvelope of schema.go over the
--   types of types.go; Loader/Connections is ValidateConnections and Loader/Topo is TopoOrder of
--   validate.go; Loader/Nodes holds what they read of pkg/workflow/node (port.go, node.go).
--   Loader/Derive is deepMerge of derive.go, and Loader/Derive/Merge the rest of that file.
--   Loader/Env is Resolve of envsubst.go, Loader/Sensitive is sensitive.go, and Loader/RetryBlocks
--   is parseRetryByNode of loader.go. Loader/Overrides is applyOverrides of overrides.go, and
--   Loader/Load is LoadOne of loader.go, which composes all of these.
-- * pkg/workflow/engine/executor/executor.go (Engine/Executor): one trigger event through a workflow.
-- * pkg/workflow/builtin/agent (Agent): Agent/Setup is factory.go and the limits that loop.go reads
--   from the environment. The rest is loop.go: Agent/Stream is one streaming attempt, Agent/Reply a
--   call of the model, which repeats the attempts under the retry helper and reads their events,
--   Agent/Tools the tool turn, Agent/Charts the corrections of charts in an answer, Agent/Messages
--   the helpers on messages, Agent/Ending the end of a turn, and Agent/Process the loop itself.
--   Agent/Types holds the values of pkg/workflow/node that they share, and Agent/Run the state and
--   the world outside.
-- * pkg/workflow/builtin/bedrock/autoupdate.go (Bedrock): the daily update of a model. Bedrock/ModelId
--   parses and compares model ids, Bedrock/State is what the updater keeps and calls, Bedrock/Upgrade
--   the stages of an upgrade and Bedrock/Updater a whole cycle with its health check; the three loops
--   of attempts at a probe are one function. What a cycle calls through its effects `list` and
--   `validate` is Bedrock/Catalog, the scan of the catalog, and Bedrock/Probe, the probe of a model,
--   over Bedrock/Chunks, the decoding of a chunk in stream.go.
-- * pkg/workflow/engine/indexaccess.go (Engine/Access): which identity function guards the index
--   that a workflow reads.
-- * pkg/workflow/builtin/opensearch/aggallowlist.go (Search/Aggregations): which aggregations of a
--   model reach OpenSearch.
-- * pkg/transport/natsstream (Transport): Transport/Protocol is protocol.go, Transport/Server the
--   session of server.go, Transport/Client the subscription of client.go. The server's outbox is
--   what the client's inbox receives, in whatever order. Transport/RoundTrip puts the two together.
-- * pkg/idt/validator.go (Idt): whether a token allows a request. Idt/Settings reads the environment,
--   Idt/Cache holds the remembered allows, and Idt/Validator asks Identity.
-- * pkg/workflow/builtin/natschat (NatsChat): the chat trigger. NatsChat/Factory is factory.go,
--   NatsChat/Access the check of a token in trigger.go, NatsChat/Trigger one request from its headers to
--   its reply, and NatsChat/Collect the sink of collectsink.go that turns a stream into one reply.
-- * pkg/rsassistant/relay.go (Assistant): Assistant/Relay turns the events of an engine stream into the
--   calls of another service's stream. Assistant/Publish decides which workflows are published, from
--   eligible.go, access.go, manifest.go and runtime.go.
-- Json is decoded JSON, shared by the loader and the search guard; Prelude holds shared helpers.
-- A function of the source has the same name in the library, in snake case; where one Go function is
-- long, its blocks are functions of their own, and the function of that name composes them.
--
-- State and effects. `Do` acts on a state of the caller: the clock, the operation, the random number
-- and the `select` are fields of a record World; the executor and the agent leave a trace of
-- actions, and the server's session an outbox. The agent runs in a world of any type, whose answers
-- are the fields of a record Outside. A Go map that is iterated is a list in any order, or a list of fields.
-- A Go int is ℤ, or ℕ where it counts; int64 products wrap as in two's complement, and the products of
-- the jitter are rounded as in float64.
--
-- Bounds. The loop of TopoOrder takes fuel, one round for every node and connection and one more: a
-- round pops a node, and a node is queued when its last incoming connection is released. The retry
-- loop takes the attempts that are left as its measure, the agent's loop the iterations, the
-- probes of a model the three attempts, and the scan of the catalog the pages up to fifty. All other
-- loops follow their data.
--
-- Parameters. encoding/json, strconv, strings.TrimSpace, the regular expressions, NATS and the nodes
-- themselves are arguments. Not modelled: network clients and databases of the builtin nodes, HTTP
-- handlers, logging, and the scheduling of goroutines.
pub mod Prelude
pub mod Retry
pub mod Loader
pub mod Json
pub mod Search
pub mod Engine
pub mod Transport
pub mod Agent
pub mod Bedrock
pub mod Assistant
pub mod Idt
pub mod NatsChat
