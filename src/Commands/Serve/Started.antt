-- ===== src/Commands/Serve/Started.antt =====
-- What the server of the serve command is started with.
use tfai_go.Base.{
  ◌≡◌, refl, Bool, true, Option, none, some, [], ◌∷◌, Bytes, codes, ℕ, Result, ok, err, All,
  All-append, List, Bool-cases, inl, inr,
}
use tfai_go.Server.Health.{Pinger}
use tfai_go.Rag.Collection.{store_error}
use tfai_go.Commands.{
  build_pingers, probe_client, drops_client, RagSetup, registered_tools, build_retriever,
  history_path, setup_tracing,
}
use tfai_go.Commands.Run.{
  Host, Parts, Run, Effect, acquire, release, asks, serves, Resource, qdrant_connection,
  history_database, trace_handler, failed, left_open, probe_connection, holding, keeping,
  with_agent,
}
use tfai_go.Commands.Serve.{
  Command, server_config, after_new, create_server, root_flag, llm_pinger, probes, serve_probing,
  serve_retrieving, serve_storing, serve_model, opened_history, run_serve,
}
use tfai_go.Provider.FromEnv.{new}
use tfai_go.RateLimit.{Rate}
use tfai_go.Server.Lifecycle
use tfai_go.Server.Lifecycle.{Server, start}

module _ {Float Model Runner : Type 0} (host : Host Float Model Runner) where
  -- A run of serve asks the agent nothing by itself, and a server that starts has what the environment and the flags
  -- say.
  pub record IsSetUp (history root_given : Option Bytes) (parts : Parts Model) (key root : Bytes)
      : Type 0 where
    pub constructed : new host.construct host.settings ≡ ok parts.model
    pub retrieves :
        build_retriever host.atoi (store_error host.qdrant) host.env ≡ ok parts.retriever
    pub equipped : parts.tools ≡ registered_tools host.find_terraform
    pub agreed : host.react_error parts.tools ≡ none
    pub remembers : parts.history ≡ history
    pub keyed : key ≡ host.env "TFAI_API_KEY"
    pub rooted : root_flag host.abs root_given ≡ ok root

  abbrev pub Started : List Pinger → Option Bytes → Option Bytes → Effect Model → Type 0
  Started probed history root_given (acquire r) = Unit
  Started probed history root_given (release r) = Unit
  Started probed history root_given (asks parts q) = ⊥
  Started probed history root_given (serves parts probes addr key root) =
      IsSetUp history root_given parts key root × (probes ≡ probed)

  holding-Started :
      {A : Type 0} (probed : List Pinger) (history root_given : Option Bytes) (r : Resource)
      (a : Option A) (run : Run Model)
      → All (Started probed history root_given) run.0
      → All (Started probed history root_given) (holding r a run).0
  unfolding holding
  holding-Started probed history root_given r none run h = h
  holding-Started probed history root_given r (some a) (effects, error) h =
      (tt, All-append (Started probed history root_given) effects (release r ∷ []) h (tt, tt))

  keeping-Started :
      {A : Type 0} (probed : List Pinger) (history root_given : Option Bytes) (r : Resource)
      (a : Option A) (run : Run Model)
      → All (Started probed history root_given) run.0
      → All (Started probed history root_given) (keeping r a run).0
  unfolding keeping
  keeping-Started probed history root_given r none run h = h
  keeping-Started probed history root_given r (some a) (effects, error) h = (tt, h)

module _ (rate : Rate) (is_zero : rate.Limit → Bool) (limit_of : ℕ → rate.Limit)
    (zero_limit : rate.Limit) {Float Model Runner : Type 0} (host : Host Float Model Runner)
    (c : Command rate is_zero limit_of zero_limit) where
  -- The history that the agent is given.
  abbrev pub history_given : Option Bytes
  history_given = opened_history c.database (history_path c.os c.tree host.env c.home).1

  -- The probes that the server is given.
  abbrev pub probes_given : List Pinger
  probes_given =
      build_pingers host.atoi (llm_pinger rate is_zero limit_of zero_limit host c) c.new_client
        host.env

  abbrev AllStarted : Run Model → Type 0
  AllStarted run = All (Started host probes_given history_given c.workspace_root) run.0

  created-Started :
      (parts : Parts Model) (root : Bytes) (static : Option Bytes)
      → IsSetUp host history_given c.workspace_root parts (host.env "TFAI_API_KEY") root
      → AllStarted (
          after_new rate is_zero limit_of zero_limit host c parts (
            Lifecycle.new rate is_zero limit_of true
              (server_config rate is_zero limit_of zero_limit [] 0 [] [])
              (some (
                server_config rate is_zero limit_of zero_limit c.host c.port
                  (host.env "TFAI_API_KEY")
                  root))
              static))
  unfolding after_new probes failed Lifecycle.new Lifecycle.resolve_config server_config
  created-Started parts root none h = ((h, refl), tt)
  created-Started parts root (some e) h = tt

  create_server-Started :
      (parts : Parts Model) (r : Result Bytes)
      → ((root : Bytes)
          → r ≡ ok root
          → IsSetUp host history_given c.workspace_root parts (host.env "TFAI_API_KEY") root)
      → AllStarted (create_server rate is_zero limit_of zero_limit host c parts r)
  unfolding create_server failed
  create_server-Started parts (err e) h = tt
  create_server-Started parts (ok root) h = created-Started parts root c.static_error (h root refl)

  with_agent-Started :
      (parts : Parts Model) (e : Option Bytes)
      → host.react_error parts.tools ≡ e
      → new host.construct host.settings ≡ ok parts.model
      → build_retriever host.atoi (store_error host.qdrant) host.env ≡ ok parts.retriever
      → parts.tools ≡ registered_tools host.find_terraform
      → parts.history ≡ history_given
      → AllStarted (
          with_agent host
            (codes "serve")
            parts
            e
            (serve_probing rate is_zero limit_of zero_limit host c))
  unfolding with_agent failed serve_probing
  with_agent-Started parts (some e) q m r t g = tt
  with_agent-Started parts none q m r t g =
      keeping-Started host probes_given history_given c.workspace_root probe_connection
        (probe_client host.atoi c.new_client host.env)
        (create_server rate is_zero limit_of zero_limit host c parts
          (root_flag host.abs c.workspace_root))
        (create_server-Started parts (root_flag host.abs c.workspace_root) (λ root k. record {
          constructed = m;
          retrieves = r;
          equipped = t;
          agreed = q;
          remembers = g;
          keyed = refl;
          rooted = k;
        }))

  serve_retrieving-Started :
      (model : Model) (r : Result (Option RagSetup))
      → new host.construct host.settings ≡ ok model
      → build_retriever host.atoi (store_error host.qdrant) host.env ≡ r
      → AllStarted (serve_retrieving rate is_zero limit_of zero_limit host c model history_given r)
  unfolding serve_retrieving left_open
  serve_retrieving-Started model (err e) m q =
      elim (Bool-cases (drops_client host.atoi host.qdrant host.env)) [
        | inl d ↦ rw d (tt, tt)
        | inr d ↦ rw d tt
      ]
  serve_retrieving-Started model (ok retriever) m q =
      let tools = registered_tools host.find_terraform in
      let parts : Parts Model = record {
        model = model;
        tools = tools;
        retriever = retriever;
        history = history_given;
      } in
      holding-Started host probes_given history_given c.workspace_root qdrant_connection retriever
        (with_agent host (codes "serve") parts (host.react_error tools)
          (serve_probing rate is_zero limit_of zero_limit host c))
        (with_agent-Started parts (host.react_error tools) refl m q refl refl)

  serve_model-Started :
      (r : Result Model)
      → new host.construct host.settings ≡ r
      → AllStarted (serve_model rate is_zero limit_of zero_limit host c r)
  unfolding serve_model serve_storing failed
  serve_model-Started (err e) m = tt
  serve_model-Started (ok model) m =
      let retriever = build_retriever host.atoi (store_error host.qdrant) host.env in
      holding-Started host probes_given history_given c.workspace_root history_database
        history_given
        (serve_retrieving rate is_zero limit_of zero_limit host c model history_given retriever)
        (serve_retrieving-Started model retriever m refl)

  -- A server that the serve command starts has the API key of the environment, and the workspace root of the
  -- flag, made absolute, or none without the flag; its probes are those of buildPingers; its agent has the chat
  -- model of the settings, the retriever and the tools that the commands build, which the ReAct agent has taken,
  -- and the history of the database if that could be opened. The command itself asks the agent nothing.
  pub run_serve-Started :
      All
        (Started host probes_given history_given c.workspace_root)
        (run_serve rate is_zero limit_of zero_limit host c).0
  unfolding run_serve
  run_serve-Started =
      let chat = new host.construct host.settings in
      holding-Started host probes_given history_given c.workspace_root trace_handler
        (setup_tracing host.env) (serve_model rate is_zero limit_of zero_limit host c chat)
        (serve_model-Started chat refl)
