-- ===== src/Commands.antt =====
-- cmd/tfai/commands/helpers.go and the wiring in serve.go and root.go: what the commands build from the
-- environment. strconv.Atoi and the clients' constructors are parameters; a client is its configuration.
pub mod Retriever
pub mod Prompts
pub mod Ingest
pub mod Run
pub mod Serve
pub mod Root
mod Tests
use tfai_go.Base.{
  String, ℕ, Bool, true, false, Option, none, some, List, [], ◌∷◌, ◌++◌, Bytes, codes, bytes_eq,
  to_lower, Env, get_env_or_default, Result, ok, err, ℤ, pos, pos_part, not, ◌||◌, ◌&&◌,
  if◌then◌else◌,
}
use tfai_go.Disk.{Tree, Os}
use tfai_go.Embedder.{Embedder, get_env_int, new_from_env, validate_for_rag, default_dimensions}
use tfai_go.Rag.Collection.{QdrantConfig, Client, opens_client, store_error}
use tfai_go.Server.Health.{Pinger}
use tfai_go.Store.{default_db_path}

-- The retriever, by what it is made of.
pub record RagSetup : Type 0 where
  pub embedder : Embedder
  pub qdrant : QdrantConfig
  pub top_k : ℤ

-- The name of the embedding backend that sizes the collection.
pub embedding_provider : Env → Bytes
embedding_provider env =
    get_env_or_default env "EMBEDDING_PROVIDER"
      (get_env_or_default env "MODEL_PROVIDER" (codes "ollama"))

abbrev pub is_none : Option Bytes → Bool
is_none none = true
is_none (some e) = false

module _ (atoi : Bytes → Option ℤ) where
  pub qdrant_config : Env → Bytes → QdrantConfig
  unfolding embedding_provider
  qdrant_config env host = record {
    host = host;
    port = get_env_int atoi env "QDRANT_PORT" (pos 6334);
    collection = get_env_or_default env "QDRANT_COLLECTION" (codes "tfai-docs");
    vector_size = pos_part (default_dimensions atoi env (embedding_provider env));
    api_key = env "QDRANT_API_KEY";
    use_tls = bytes_eq (env "QDRANT_TLS") (codes "true");
  }

  pub connect_store :
      (QdrantConfig → Option Bytes) → Env → Result Embedder → Result (Option RagSetup)
  unfolding qdrant_config
  connect_store connect env (err e) = err (codes "rag: failed to initialise embedder: " ++ e)
  connect_store connect env (ok emb) =
      let cfg = qdrant_config env (env "QDRANT_HOST") in
      elim (connect cfg) [
        | some e ↦ err (codes "rag: failed to connect to Qdrant: " ++ e)
        | none ↦ ok (
            some (record {
              embedder = emb;
              qdrant = cfg;
              top_k = get_env_int atoi env "RAG_TOP_K" (pos 5);
            }))
      ]

  -- buildRetriever, with the error of NewQdrantStore if there is one
  pub build_retriever : (QdrantConfig → Option Bytes) → Env → Result (Option RagSetup)
  unfolding connect_store
  build_retriever connect env =
      if bytes_eq (env "QDRANT_HOST") [] then ok none else elim (validate_for_rag env) [
        | some e ↦ err e
        | none ↦ connect_store connect env (new_from_env atoi env)
      ]

  -- Whether buildRetriever fails behind a client that NewQdrantStore has opened and nothing closes.
  unfoldable pub drops_client : Client → Env → Bool
  unfolding qdrant_config
  drops_client client env =
      if bytes_eq (env "QDRANT_HOST") [] then false else elim (validate_for_rag env) [
        | some e ↦ false
        | none ↦ elim (new_from_env atoi env) [
          | err e ↦ false
          | ok emb ↦
              let cfg = qdrant_config env (env "QDRANT_HOST") in
              opens_client client cfg && not (is_none (store_error client cfg))
        ]
      ]

  -- The probe of Qdrant, with its client, where one can be constructed for the host and the port.
  pub probe_client : (Bytes → ℤ → Option Pinger) → Env → Option Pinger
  probe_client new_client env =
      let probe = new_client (env "QDRANT_HOST") (get_env_int atoi env "QDRANT_PORT" (pos 6334)) in
      if not (bytes_eq (env "QDRANT_HOST") []) then probe else none

  pub with_probe : Pinger → Option Pinger → List Pinger
  with_probe llm none = llm ∷ []
  with_probe llm (some probe) = llm ∷ probe ∷ []

  -- buildPingers, of the pinger of the model
  pub build_pingers : Pinger → (Bytes → ℤ → Option Pinger) → Env → List Pinger
  unfolding probe_client with_probe
  build_pingers llm new_client env = with_probe llm (probe_client new_client env)

-- An interface value: nil, or a pointer, which may be nil itself.
pub data Interface (A : Type 0) : Type 0 where
  nil_interface : Interface A
  holds : Option A → Interface A

pub data Tool : Type 0 where
  plan_tool state_tool : Tool

-- buildTools
pub build_tools : {A : Type 0} → Interface A → List Tool
build_tools nil_interface = []
build_tools (holds pointer) = plan_tool ∷ state_tool ∷ []

-- The tools of a command: `runner` is the *ExecRunner that NewExecRunner returns, or nil behind its error,
-- and is passed for the interface Runner.
pub registered_tools : {A : Type 0} → Result A → List Tool
unfolding build_tools
registered_tools (ok runner) = build_tools (holds (some runner))
registered_tools {A = A} (err e) = build_tools {A = A} (holds none)

-- The path of the conversation history that `serve` opens, if any; a home directory that cannot be used
-- leaves it empty.
pub default_history : Tree × Result Bytes → Tree × Option Bytes
default_history (tree, ok path) = (tree, some path)
default_history (tree, err e) = (tree, none)

pub history_path : Os → Tree → Env → Result Bytes → Tree × Option Bytes
unfolding default_history
history_path os tree env home =
    let db_path = env "TFAI_HISTORY_DB" in
    if bytes_eq db_path (codes "disabled")
    then (tree, none)
    else if bytes_eq db_path []
    then default_history (default_db_path os tree home)
    else (tree, some db_path)

-- slog.Level
pub data Level : Type 0 where
  level_debug level_info level_warn level_error : Level

-- parseLevel of internal/logging
pub parse_level : Bytes → Level
parse_level s =
    let name = to_lower s in
    if bytes_eq name (codes "debug")
    then level_debug
    else if bytes_eq name (codes "warn") || bytes_eq name (codes "warning")
    then level_warn
    else if bytes_eq name (codes "error")
    then level_error
    else level_info

-- The logger that logging.New makes of the environment: its level, and whether it writes text.
pub record Logger : Type 0 where
  pub level : Level
  pub text : Bool

unfoldable pub new_logger : Env → Logger
unfolding parse_level
new_logger env = record {
  level = parse_level (env "LOG_LEVEL");
  text = bytes_eq (to_lower (env "LOG_FORMAT")) (codes "text");
}

-- The configuration of the Langfuse handler of tracing.Setup, if there is one: host and keys.
pub record Tracing : Type 0 where
  pub host : Bytes
  pub public_key : Bytes
  pub secret_key : Bytes

pub setup_tracing : Env → Option Tracing
setup_tracing env =
    if bytes_eq (env "LANGFUSE_PUBLIC_KEY") [] || bytes_eq (env "LANGFUSE_SECRET_KEY") []
    then none
    else some (record {
      host = get_env_or_default env "LANGFUSE_HOST" (codes "http://localhost:3000");
      public_key = env "LANGFUSE_PUBLIC_KEY";
      secret_key = env "LANGFUSE_SECRET_KEY";
    })
