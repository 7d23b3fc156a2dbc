-- ===== src/Commands/Run/Released.antt =====
-- What ask, generate and diagnose still hold of a resource when they end.
use tfai_go.Base.{
  refl, ℕ, Bool, Option, none, some, List, [], ◌++◌, Bytes, codes, Result, ok, err, if◌then◌else◌,
  Bool-cases, inl, inr, arith,
}
use tfai_go.Commands.{RagSetup, build_retriever, drops_client, registered_tools}
use tfai_go.Commands.Prompts.{Query, plan_content, ask_query, diagnose_query}
use tfai_go.Commands.Run.{
  Resource, qdrant_connection, Effect, Host, Parts, Run, Setup, Prepared, failed, left_open,
  with_retriever, with_models, with_agent, ask_agent, init_command, ask_with, ask_models, run_ask,
  generate_in, generate_with, run_generate, diagnose_ask, diagnose_with, diagnose_content,
  run_diagnose,
}
use tfai_go.Provider.FromEnv.{ModelCfg, new_from_env}
use tfai_go.Rag.Collection.{store_error}
use tfai_go.Commands.Run.Held.{is_same, Leaves, holding-Leaves, keeping-Leaves, opened}

-- So many, if the step before succeeds.
abbrev pub if_ok : {A : Type 0} → Result A → (A → ℕ) → ℕ
if_ok (ok a) n = n a
if_ok (err e) n = 0

abbrev pub if_none : Option Bytes → ℕ → ℕ
if_none none n = n
if_none (some e) n = 0

-- What is left behind a buildRetriever: so many if it succeeds, and otherwise so many.
abbrev pub if_retriever : Result (Option RagSetup) → (Option RagSetup → ℕ) → ℕ → ℕ
if_retriever (ok retriever) n m = n retriever
if_retriever (err e) n m = m

module _ {Float Model Runner : Type 0} (q : Resource) (host : Host Float Model Runner) where
  -- The client of a store whose collection cannot be ensured.
  abbrev pub dropped : ℕ
  dropped = if drops_client host.atoi host.qdrant host.env then is_same q qdrant_connection else 0

  pub left_open-Leaves : (error : Option Bytes) → Leaves q dropped (left_open host, error)
  unfolding left_open
  left_open-Leaves error = elim (Bool-cases (drops_client host.atoi host.qdrant host.env)) [
    | inl e ↦ rw e (omega arith)
    | inr e ↦ rw e refl
  ]

  pub with_agent-Leaves :
      (name : Bytes) (parts : Parts Model) (e : Option Bytes) (next : Parts Model → Run Model)
      (n : ℕ)
      → ((p : Parts Model) → Leaves q n (next p))
      → Leaves q (if_none e n) (with_agent host name parts e next)
  unfolding with_agent failed
  with_agent-Leaves name parts none next n h = h parts
  with_agent-Leaves name parts (some e) next n h = refl

  with_agent-Leaves_none :
      (name : Bytes) (parts : Parts Model) (e : Option Bytes) (next : Parts Model → Run Model)
      → ((p : Parts Model) → Leaves q 0 (next p))
      → Leaves q 0 (with_agent host name parts e next)
  unfolding with_agent failed
  with_agent-Leaves_none name parts none next h = h parts
  with_agent-Leaves_none name parts (some e) next h = refl

  ask_with-Leaves :
      (dir question : Bytes) (chat : Model) (r : Result (Option RagSetup))
      → Leaves q (if_retriever r (λ s. 0) dropped) (ask_with host dir question chat r)
  unfolding ask_with ask_agent
  ask_with-Leaves dir question chat (err e) = left_open-Leaves (some (codes "ask: " ++ e))
  ask_with-Leaves dir question chat (ok retriever) =
      holding-Leaves q qdrant_connection retriever _ 0 (
        with_agent-Leaves_none (codes "ask") _ (host.react_error _)
          (ask_agent host (ask_query dir question)) (λ p. refl))

  ask_models-Leaves :
      (dir question : Bytes) (r : Result (ModelCfg Model))
      → Leaves q
          (if_ok r (λ models.
            if_retriever
              (build_retriever host.atoi (store_error host.qdrant) host.env)
              (λ s. 0)
              dropped))
          (ask_models host dir question r)
  unfolding ask_models failed
  ask_models-Leaves dir question (err e) = refl
  ask_models-Leaves dir question (ok models) =
      ask_with-Leaves dir question models.chat_model
        (build_retriever host.atoi (store_error host.qdrant) host.env)

  generate_in-Leaves :
      (description : Bytes) (parts : Parts Model) (r : Result Bytes)
      → Leaves q 0 (generate_in host description parts r)
  unfolding generate_in failed ask_agent
  generate_in-Leaves description parts (err e) = refl
  generate_in-Leaves description parts (ok out_dir) = refl

  -- What a set-up leaves, of what the command leaves of the retriever.
  abbrev pub after_setup : (Option RagSetup → ℕ) → ℕ
  after_setup kept = if_ok (new_from_env host.construct host.env host.settings) (λ models.
      if_retriever (build_retriever host.atoi (store_error host.qdrant) host.env) kept dropped)

  -- A command that goes on from the set-up, by what it does with it.
  setup-Leaves :
      (kept : Option RagSetup → ℕ) (next : Prepared host → Run Model)
      → ((setup : Setup Model) → Leaves q (kept setup.retriever) (next ([], ok setup)))
      → ((effects : List (Effect Model)) (e : Bytes) (n : ℕ)
          → Leaves q n (effects, none)
          → Leaves q n (next (effects, err e)))
      → Leaves q (after_setup kept) (next (init_command host))
  unfolding init_command
  setup-Leaves kept next goes stops = by_models (new_from_env host.construct host.env host.settings)
    where
      by_retriever :
          (models : ModelCfg Model) (r : Result (Option RagSetup))
          → Leaves q (if_retriever r kept dropped) (next (with_retriever host models r))
      by_retriever models (ok retriever) =
          unfold with_retriever in
          goes (record {
            models = models;
            tools = registered_tools host.find_terraform;
            retriever = retriever;
          })
      by_retriever models (err e) =
          unfold with_retriever in stops (left_open host) _ dropped (left_open-Leaves none)

      by_models :
          (m : Result (ModelCfg Model))
          → Leaves q
              (if_ok m (λ models.
                if_retriever
                  (build_retriever host.atoi (store_error host.qdrant) host.env)
                  kept
                  dropped))
              (next (with_models host m))
      by_models (ok models) =
          unfold with_models in
          by_retriever models (build_retriever host.atoi (store_error host.qdrant) host.env)
      by_models (err e) = unfold with_models in stops [] _ 0 refl

  pub run_ask-Leaves :
      (dir question : Bytes) → Leaves q (after_setup (λ s. 0)) (run_ask host dir question)
  unfolding run_ask
  run_ask-Leaves dir question =
      ask_models-Leaves dir question (new_from_env host.construct host.env host.settings)

  pub run_generate-Leaves :
      (out_dir description : Bytes)
      → Leaves q (after_setup (λ s. 0)) (run_generate host out_dir description)
  unfolding run_generate generate_with
  run_generate-Leaves out_dir description =
      setup-Leaves (λ s. 0) (generate_with host out_dir description)
        (λ setup. holding-Leaves q qdrant_connection setup.retriever _ 0 (
          with_agent-Leaves_none (codes "generate") _ (host.react_error setup.tools) _
            (λ p. generate_in-Leaves description p (host.abs out_dir))))
        (λ effects e n h. h)

  diagnose_ask-Leaves :
      (parts : Parts Model) (r : Result Query) → Leaves q 0 (diagnose_ask host parts r)
  unfolding diagnose_ask failed ask_agent
  diagnose_ask-Leaves parts (err e) = refl
  diagnose_ask-Leaves parts (ok query) = refl

  diagnose_content-Leaves :
      (dir : Bytes) (content : Result Bytes)
      → Leaves q
          (if_ok content (λ c. after_setup (opened q qdrant_connection)))
          (diagnose_content host dir content)
  unfolding diagnose_content diagnose_with failed
  diagnose_content-Leaves dir (err e) = refl
  diagnose_content-Leaves dir (ok content) =
      setup-Leaves (opened q qdrant_connection) (diagnose_with host content dir)
        (λ setup. keeping-Leaves q qdrant_connection setup.retriever _ (
          with_agent-Leaves_none (codes "diagnose") _ (host.react_error setup.tools) _
            (λ p. diagnose_ask-Leaves p (diagnose_query host.quote content dir))))
        (λ effects e n h. h)

  pub run_diagnose-Leaves :
      (plan_file dir : Bytes) (read : Bytes → Result Bytes) (stat : Result Bool)
      (stdin : Result Bytes)
      → Leaves q
          (if_ok
            (plan_content plan_file read stat stdin)
            (λ c. after_setup (opened q qdrant_connection)))
          (run_diagnose host plan_file dir read stat stdin)
  unfolding run_diagnose
  run_diagnose-Leaves plan_file dir read stat stdin =
      diagnose_content-Leaves dir (plan_content plan_file read stat stdin)
