-- ===== src/Lib.antt =====
-- tfai-go: an assistant for Terraform. A server (internal/server) takes chat and file requests, an
-- agent (internal/agent) asks a language model (internal/provider) with documentation found by a
-- vector search (internal/rag, filled by internal/ingestion through internal/embedder), and writes
-- the Terraform files of the answer. Settings come from the environment and a YAML file
-- (internal/config); each command logs what it runs with (internal/audit).
--
-- The files and the code they model:
--   Base, Path, Disk  what the program uses of the Go library: bytes and texts, os.Getenv, package
--                     filepath (Clean, Join, Dir, Ext), and the file system as a tree of nodes
--   Workspace         internal/server/workspace.go: resolveAbsDir, ConfineToDir, handleFileSave,
--                     handleFileRead; Workspace/Scaffold is handleWorkspaceCreate, and
--                     Workspace/Listing is handleWorkspace
--   Server            internal/server: Stream is sseWriter, Chat is handleChat, Health is health.go and
--                     pingers.go, Routes is the wiring of New with middleware.go, Lifecycle is the
--                     rest of New, and Start, and Metrics is what chats do to metrics.go
--   RateLimit         internal/server/ratelimit.go: getLimiter, evict, middleware, clientIP
--   Auth              internal/server/auth.go: bearerToken, authMiddleware
--   Agent             internal/agent: Apply is applyFiles, Messages is buildMessages with
--                     buildRAGContext and buildWorkspaceContext, Query is New and Query, and Session
--                     is a sequence of queries over the store
--   Budget            internal/budget/budget.go: Estimate, EstimateMessages, TrimHistory
--   Backend, Provider internal/provider: interface.go and backends.go in Settings, factory.go in
--                     FromEnv, azure_codex.go in AzureCodex
--   Embedder          internal/embedder: factory.go, the errors of validate.go, and Embed of openai.go and
--                     of ollama.go
--   Rag               internal/rag: qdrant.go and retriever.go
--   Ingestion         internal/ingestion: pipeline.go, its fetch and chunkID in Fetch and ChunkId, and
--                     metadata.go in Metadata
--   Store             internal/store/store.go: Append and Recent, and DefaultDBPath
--   Tools             internal/tools: runner.go, plan.go and state.go; Tools/Generate is generate.go
--   Config, Audit     internal/config/config.go, internal/audit/audit.go
--   Commands          cmd/tfai/commands: helpers.go, the prompts and sources in Prompts, ask.go, generate.go
--                     and diagnose.go in Run, serve.go with Open of the store in Serve, and ingest.go in
--                     Ingest; Root is the hook of root.go; internal/logging and internal/tracing. A run of a
--                     command is the list of its effects outside, in order, with its error
--
-- How the parts meet: the handlers of Workspace and the agent's Apply and Query share Path and Disk,
-- so "inside a directory" (Path.Prefix.Within) is one notion for all; Agent.Messages trims by Budget
-- and takes documents of Rag; Ingestion.Pipeline stores by Rag.upsert. Server.Routes runs a request
-- through Auth, RateLimit and the handlers of Workspace, Server.Chat and Server.Health; Tools.Generate
-- shares Disk.Same with Agent.Apply; Agent.Session runs Agent.Query over Store; Commands builds on Provider,
-- Embedder, Rag, Store and Server, and Commands.Ingest runs Ingestion over Embedder and Rag.
--
-- State is passed explicitly: a handler takes the tree of the file system and returns the next one
-- with its response; the rate limiter is a state with an event for each request and each tick of
-- its eviction loop; a query takes the files, the texts sent and the rows of the store; the server
-- is a state of the rate limiter and the files, and a chat's agent is a program of writes. Errors
-- are values; a panic of NewValueMap is one as well. Their messages mostly leave out the wrapping
-- of one error by another, and some of the values that the code formats into them.
-- Numbers that the program keeps non-negative are natural numbers, and the others integers; the
-- sizes involved are far below the range of Go's int. A literal of the source stands for its code
-- points, so a character of a message that is not ASCII counts as one.
--
-- Parameters: the calls of package os that fail and what a failed write leaves (Disk.Os),
-- x/time/rate, the Qdrant client with its NewValueMap, the embedding services, the models and the
-- ReAct agent with what its tools do to the files, the HTTP client of Codex, the terraform
-- process, the JSON and YAML decoders, url.Parse, strconv, the HTTP client of the fetch of a page,
-- SHA-256 in the ids of its chunks, the order of filepath.WalkDir, the route that ServeMux
-- chooses, the errors of the database, and the text of the system prompt.
--
-- Fuel: chunk has one round for each byte of the text and one more, which is enough since each
-- round advances; the digits of a number have one for each unit. All other loops are structural.
--
-- Not modelled: log lines, the metrics of HTTP requests, request ids, what the tracer sends, the
-- static files, what closing a resource does, symbolic links, queries that overlap in time, and the
-- parsing of flags by cobra.
pub mod Agent
pub mod Audit
pub mod Auth
pub mod Backend
pub mod Base
pub mod Budget
pub mod Commands
pub mod Config
pub mod Disk
pub mod Embedder
pub mod Ingestion
pub mod Path
pub mod Provider
pub mod Rag
pub mod RateLimit
pub mod Server
pub mod Store
pub mod Tools
pub mod Workspace
