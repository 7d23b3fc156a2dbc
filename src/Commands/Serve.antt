-- ===== src/Commands/Serve.antt =====
-- NewServeCmd of cmd/tfai/commands/serve.go, from its set-up to the end of the server, with Open of
-- internal/store/store.go. Parameters, beside those of Commands.Run: the errors of the database, the probes'
-- clients, x/time/rate, the error of filepath.Abs for the static files, and how the server ends.
pub mod Released
pub mod Started
pub mod Success
use tfai_go.Base.{
  ℕ, Bool, true, Option, none, some, List, [], ◌∷◌, ◌++◌, Bytes, codes, Result, ok, err, ℤ,
}
use tfai_go.Commands.{
  RagSetup, Tool, build_retriever, probe_client, build_pingers, registered_tools, history_path,
  setup_tracing,
}
use tfai_go.Commands.Run.{
  Host, Parts, Effect, Run, serves, failed, left_open, holding, keeping, probe_connection,
  with_agent, trace_handler, history_database, qdrant_connection,
}
use tfai_go.Disk.{Tree, Os}
use tfai_go.Rag.Collection.{store_error}
use tfai_go.Provider.FromEnv.{new}
use tfai_go.RateLimit.{Rate}
use tfai_go.Server.Health.{Pinger, llm_ping}
use tfai_go.Server.Lifecycle
use tfai_go.Server.Lifecycle.{Server, Ending, start}

-- sql.Open and the DDL of migrate, by their errors for the connection string of a path
pub record Database : Type 0 where
  pub open_error : Bytes → Option Bytes
  pub ddl_error : Bytes → Option Bytes

-- The error of a step, in its words.
pub wrapped : Bytes → Option Bytes → Option Bytes
wrapped words none = none
wrapped words (some e) = some (words ++ e)

-- Open, with migrate: its error
pub open_store : Database → Bytes → Option Bytes
unfolding wrapped
open_store db path =
    let dsn = path ++ codes "?_journal_mode=WAL&_busy_timeout=5000" in
    elim (db.open_error dsn) [
      | some e ↦ some (codes "store: open " ++ path ++ codes ": " ++ e)
      | none ↦ wrapped (codes "store: migrate: ") (db.ddl_error dsn)
    ]

-- The path of the store that is opened: one that cannot be opened leaves the agent without history.
pub opened_history : Database → Option Bytes → Option Bytes
unfolding open_store
opened_history db none = none
opened_history db (some path) = elim (open_store db path) [ some e ↦ none | none ↦ some path ]

-- The flag --workspace-root, if it is given, made absolute
pub root_flag : (Bytes → Result Bytes) → Option Bytes → Result Bytes
root_flag abs none = ok []
root_flag abs (some given) = abs given

module _ (rate : Rate) (is_zero : rate.Limit → Bool) (limit_of : ℕ → rate.Limit)
    (zero_limit : rate.Limit) where
  abbrev pub ServerConfig : Type 0
  ServerConfig = Lifecycle.Config rate is_zero limit_of

  -- The configuration that the command sets; the other fields are zero.
  pub server_config : Bytes → ℕ → Bytes → Bytes → ServerConfig
  server_config host port api_key workspace_root = record {
    host = host;
    port = port;
    read_timeout = 0;
    write_timeout = 0;
    shutdown_timeout = 0;
    rate_limit = zero_limit;
    rate_burst = 0;
    api_key = api_key;
    workspace_root = workspace_root;
    chat_timeout = 0;
  }

  -- The flags of the command, and what it finds.
  pub record Command : Type 0 where
    pub host : Bytes
    pub port : ℕ
    pub workspace_root : Option Bytes
    pub os : Os
    pub tree : Tree
    pub home : Result Bytes
    pub database : Database
    pub static_error : Option Bytes
    pub new_client : Bytes → ℤ → Option Pinger
    -- what the health check of the backend returns, if there is one, and what Generate returns for the probe
    pub llm_health : Option (Option Bytes)
    pub llm_generated : Result Bool
    pub ending : Ending rate is_zero limit_of

  module _ {Float Model Runner : Type 0} (host : Host Float Model Runner) (c : Command) where
    -- NewLLMPinger
    pub llm_pinger : Pinger
    llm_pinger = record {
      name = host.settings.backend;
      ping = llm_ping host.settings.backend c.llm_health c.llm_generated;
    }

    -- The probes of the server: the field Pingers of its configuration
    pub probes : List Pinger
    unfolding llm_pinger
    probes = build_pingers host.atoi llm_pinger c.new_client host.env

    pub after_new : Parts Model → Result (Server rate is_zero limit_of) → Run Model
    unfolding failed probes
    after_new parts (err e) = failed host (codes "serve: failed to create server: " ++ e)
    after_new parts (ok server) = (
      serves parts probes server.addr server.config.api_key server.config.workspace_root ∷ [],
      (start rate is_zero limit_of server c.ending).1,
    )

    pub create_server : Parts Model → Result Bytes → Run Model
    unfolding failed after_new server_config
    create_server parts (err e) =
        failed host
          (codes "serve:workspace-root: failed to resolve absolute path of workspace root: " ++ e)
    create_server parts (ok workspace_root) = after_new parts (
        Lifecycle.new rate is_zero limit_of true (server_config [] 0 [] [])
          (some (server_config c.host c.port (host.env "TFAI_API_KEY") workspace_root))
          c.static_error)

    -- The probes and what comes behind them: nothing closes the client of the probe of Qdrant.
    pub serve_probing : Parts Model → Run Model
    unfolding keeping create_server root_flag
    serve_probing parts =
        keeping probe_connection (probe_client host.atoi c.new_client host.env)
          (create_server parts (root_flag host.abs c.workspace_root))

    pub serve_retrieving : Model → Option Bytes → Result (Option RagSetup) → Run Model
    unfolding left_open holding with_agent serve_probing
    serve_retrieving model history (err e) = (left_open host, some (codes "serve: " ++ e))
    serve_retrieving model history (ok retriever) =
        let tools = registered_tools host.find_terraform in
        holding qdrant_connection retriever (
          with_agent host (codes "serve")
            (record { model = model; tools = tools; retriever = retriever; history = history })
            (host.react_error tools) serve_probing)

    pub serve_storing : Model → Option Bytes → Run Model
    unfolding holding serve_retrieving
    serve_storing model history = holding history_database history (
        serve_retrieving model history
          (build_retriever host.atoi (store_error host.qdrant) host.env))

    pub serve_model : Result Model → Run Model
    unfolding failed serve_storing opened_history history_path
    serve_model (err e) = failed host (codes "serve: failed to initialise model provider: " ++ e)
    serve_model (ok model) =
        serve_storing model (opened_history c.database (history_path c.os c.tree host.env c.home).1)

    -- NewServeCmd
    pub run_serve : Run Model
    unfolding holding serve_model
    run_serve =
        holding trace_handler (setup_tracing host.env)
          (serve_model (new host.construct host.settings))
