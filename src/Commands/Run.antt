-- ===== src/Commands/Run.antt =====
-- The commands of cmd/tfai/commands that ask the agent, from their set-up to the end: ask.go, generate.go and
-- diagnose.go, over initCommand of helpers.go. A run is the list of what it does outside, in order, with the error
-- it ends with; what a `defer` releases comes at its place in the list. Parameters: the constructors of the models,
-- the Qdrant client (see Rag.Collection), the ReAct agent, filepath.Abs and strconv.Quote.
pub mod Held
pub mod Released
use tfai_go.Backend.{Backend}
use tfai_go.Base.{
  Bool, if◌then◌else◌, ℕ, Option, none, some, List, [], ◌∷◌, ◌++◌, Bytes, codes, Env, Result, ok,
  err, ℤ,
}
use tfai_go.Commands.{RagSetup, Tool, build_retriever, drops_client, registered_tools}
use tfai_go.Commands.Prompts.{
  Query, ask_query, diagnose_query, plan_content, generate_model, generate_query,
}
use tfai_go.Provider.FromEnv.{ModelCfg, new_from_env}
use tfai_go.Provider.Settings.{Config}
use tfai_go.Rag.Collection.{Client, store_error}
use tfai_go.Server.Health.{Pinger}

-- What a command opens: the connection of the retriever, that of the readiness probe, the database and the handler.
pub data Resource : Type 0 where
  qdrant_connection probe_connection history_database trace_handler : Resource

-- What the agent of a command is made of.
pub record Parts (Model : Type 0) : Type 0 where
  pub model : Model
  pub tools : List Tool
  pub retriever : Option RagSetup
  pub history : Option Bytes

pub data Effect (Model : Type 0) : Type 0 where
  acquire release : Resource → Effect Model
  -- Query of the agent
  asks : Parts Model → Query → Effect Model
  -- the server listens with its probes at an address, with the API key and the workspace root, until it ends
  serves : Parts Model → List Pinger → Bytes → Bytes → Bytes → Effect Model

-- What the commands reach outside.
pub record Host (Float Model Runner : Type 0) : Type 0 where
  pub env : Env
  pub atoi : Bytes → Option ℤ
  pub settings : Config Float
  pub construct : Backend → Config Float → Result Model
  pub find_terraform : Result Runner
  pub qdrant : Client
  pub react_error : List Tool → Option Bytes
  pub query_error : Parts Model → Query → Option Bytes
  pub abs : Bytes → Result Bytes
  pub quote : Bytes → Bytes

abbrev pub Run : Type 0 → Type 0
Run Model = List (Effect Model) × Option Bytes

-- initCommand
pub record Setup (Model : Type 0) : Type 0 where
  pub models : ModelCfg Model
  pub tools : List Tool
  pub retriever : Option RagSetup

-- A resource that is held, if there is one, around a run.
unfoldable pub holding : {A Model : Type 0} → Resource → Option A → Run Model → Run Model
holding r none run = run
holding r (some a) (effects, error) = (acquire r ∷ (effects ++ release r ∷ []), error)

-- A connection that nothing releases.
unfoldable pub keeping : {A Model : Type 0} → Resource → Option A → Run Model → Run Model
keeping r none run = run
keeping r (some a) (effects, error) = (acquire r ∷ effects, error)

module _ {Float Model Runner : Type 0} (host : Host Float Model Runner) where
  unfoldable pub failed : Bytes → Run Model
  failed message = ([], some message)

  -- What a buildRetriever that fails leaves open.
  unfoldable pub left_open : List (Effect Model)
  left_open =
      if drops_client host.atoi host.qdrant host.env then acquire qdrant_connection ∷ [] else []

  -- The set-up, with what it leaves open.
  abbrev pub Prepared : Type 0
  Prepared = List (Effect Model) × Result (Setup Model)

  unfoldable pub with_retriever : ModelCfg Model → Result (Option RagSetup) → Prepared
  unfolding left_open
  with_retriever models (err e) = (left_open, err (codes "initCommand: " ++ e))
  with_retriever models (ok retriever) = (
    [],
    ok (record {
      models = models;
      tools = registered_tools host.find_terraform;
      retriever = retriever;
    }),
  )

  unfoldable pub with_models : Result (ModelCfg Model) → Prepared
  unfolding with_retriever
  with_models (err e) = ([], err (codes "initCommand: failed to initialise model provider: " ++ e))
  with_models (ok models) =
      with_retriever models (build_retriever host.atoi (store_error host.qdrant) host.env)

  unfoldable pub init_command : Prepared
  unfolding with_models
  init_command = with_models (new_from_env host.construct host.env host.settings)

  -- agent.New, with a model; then the run goes on with the parts of the agent.
  unfoldable pub with_agent :
      Bytes → Parts Model → Option Bytes → (Parts Model → Run Model) → Run Model
  unfolding failed
  with_agent name parts (some e) next =
      failed
        (name ++ codes ": failed to initialise agent: agent: failed to create ReAct agent: " ++ e)
  with_agent name parts none next = next parts

  unfoldable pub ask_agent : Query → Parts Model → Run Model
  ask_agent q parts = (asks parts q ∷ [], host.query_error parts q)

  -- NewAskCmd, once the models are there
  pub ask_with : Bytes → Bytes → Model → Result (Option RagSetup) → Run Model
  unfolding left_open holding with_agent ask_agent
  ask_with dir question chat (err e) = (left_open, some (codes "ask: " ++ e))
  ask_with dir question chat (ok retriever) =
      let tools = registered_tools host.find_terraform in
      holding qdrant_connection retriever (
        with_agent (codes "ask")
          (record { model = chat; tools = tools; retriever = retriever; history = none })
          (host.react_error tools) (ask_agent (ask_query dir question)))

  pub ask_models : Bytes → Bytes → Result (ModelCfg Model) → Run Model
  unfolding ask_with
  ask_models dir question (err e) = failed (codes "ask: failed to initialise model provider: " ++ e)
  ask_models dir question (ok models) =
      ask_with dir question models.chat_model
        (build_retriever host.atoi (store_error host.qdrant) host.env)

  -- NewAskCmd, of the flag --dir and the question
  pub run_ask : Bytes → Bytes → Run Model
  unfolding ask_models
  run_ask dir question =
      ask_models dir question (new_from_env host.construct host.env host.settings)

  -- NewGenerateCmd, once the agent is there
  pub generate_in : Bytes → Parts Model → Result Bytes → Run Model
  unfolding failed ask_agent
  generate_in description parts (err e) =
      failed (codes "generate: failed to resolve output directory: " ++ e)
  generate_in description parts (ok out_dir) =
      ask_agent (generate_query host.quote out_dir description) parts

  pub generate_with : Bytes → Bytes → Prepared → Run Model
  unfolding holding with_agent generate_in
  generate_with out_dir description (opened, err e) =
      (opened, some (codes "generate: failed to initialize command: " ++ e))
  generate_with out_dir description (opened, ok setup) = holding qdrant_connection setup.retriever (
      with_agent (codes "generate")
        (record {
          model = generate_model (some setup.models.generate_model) setup.models.chat_model;
          tools = setup.tools;
          retriever = setup.retriever;
          history = none;
        })
        (host.react_error setup.tools) (λ parts. generate_in description parts (host.abs out_dir)))

  -- NewGenerateCmd, of the flag --out and the description
  pub run_generate : Bytes → Bytes → Run Model
  unfolding generate_with init_command
  run_generate out_dir description = generate_with out_dir description init_command

  -- NewDiagnoseCmd, once the prompt is there or is refused
  pub diagnose_ask : Parts Model → Result Query → Run Model
  unfolding failed ask_agent
  diagnose_ask parts (err e) = failed e
  diagnose_ask parts (ok q) = ask_agent q parts

  pub diagnose_with : Bytes → Bytes → Prepared → Run Model
  unfolding keeping with_agent diagnose_ask
  diagnose_with content dir (opened, err e) =
      (opened, some (codes "diagnose: failed to initialize command: " ++ e))
  diagnose_with content dir (opened, ok setup) = keeping qdrant_connection setup.retriever (
      with_agent (codes "diagnose")
        (record {
          model = setup.models.chat_model;
          tools = setup.tools;
          retriever = none;
          history = none;
        })
        (host.react_error setup.tools)
        (λ parts. diagnose_ask parts (diagnose_query host.quote content dir)))

  pub diagnose_content : Bytes → Result Bytes → Run Model
  unfolding diagnose_with init_command
  diagnose_content dir (err e) = failed e
  diagnose_content dir (ok content) = diagnose_with content dir init_command

  -- NewDiagnoseCmd, of the flags --plan and --dir, the reading of the plan file, and the standard input
  pub run_diagnose : Bytes → Bytes → (Bytes → Result Bytes) → Result Bool → Result Bytes → Run Model
  unfolding diagnose_content
  run_diagnose plan_file dir read stat stdin =
      diagnose_content dir (plan_content plan_file read stat stdin)
