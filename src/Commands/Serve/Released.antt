-- ===== src/Commands/Serve/Released.antt =====
-- What the commands that ask the agent, and serve, still hold when they end.
use tfai_go.Base.{◌++◌, refl, Bool, true, Option, some, [], Bytes, codes, ℕ, Result, ok, err}
use tfai_go.Commands.{
  history_path, RagSetup, build_retriever, probe_client, registered_tools, setup_tracing,
}
use tfai_go.Commands.Prompts.{plan_content}
use tfai_go.Commands.Run.{
  Resource, Host, Parts, qdrant_connection, probe_connection, history_database, trace_handler,
  failed, run_ask, run_generate, run_diagnose,
}
use tfai_go.Commands.Run.Released.{
  if_ok, if_none, if_retriever, dropped, after_setup, left_open-Leaves, with_agent-Leaves,
  run_ask-Leaves, run_generate-Leaves, run_diagnose-Leaves,
}
use tfai_go.Commands.Run.Held.{Leaves, opened, holding-Leaves, keeping-Leaves}
use tfai_go.Commands.Serve.{
  Command, server_config, after_new, create_server, root_flag, serve_probing, serve_retrieving,
  serve_storing, serve_model, opened_history, run_serve,
}
use tfai_go.Provider.FromEnv.{new}
use tfai_go.Rag.Collection.{store_error}
use tfai_go.RateLimit.{Rate}
use tfai_go.Server.Lifecycle
use tfai_go.Server.Lifecycle.{Server}

module _ (q : Resource) (rate : Rate) (is_zero : rate.Limit → Bool) (limit_of : ℕ → rate.Limit)
    (zero_limit : rate.Limit) {Float Model Runner : Type 0} (host : Host Float Model Runner)
    (c : Command rate is_zero limit_of zero_limit) where
  after_new-Leaves :
      (parts : Parts Model) (r : Result (Server rate is_zero limit_of))
      → Leaves q 0 (after_new rate is_zero limit_of zero_limit host c parts r)
  unfolding after_new failed
  after_new-Leaves parts (err e) = refl
  after_new-Leaves parts (ok server) = refl

  create_server-Leaves :
      (parts : Parts Model) (r : Result Bytes)
      → Leaves q 0 (create_server rate is_zero limit_of zero_limit host c parts r)
  unfolding create_server failed
  create_server-Leaves parts (err e) = refl
  create_server-Leaves parts (ok root) = after_new-Leaves parts (
      Lifecycle.new rate is_zero limit_of true
        (server_config rate is_zero limit_of zero_limit [] 0 [] [])
        (some (
          server_config rate is_zero limit_of zero_limit c.host c.port (host.env "TFAI_API_KEY")
            root))
        c.static_error)

  -- The client of the probe of Qdrant, where the agent is there.
  abbrev pub probing : ℕ
  probing =
      if_none (host.react_error (registered_tools host.find_terraform))
        (opened q probe_connection (probe_client host.atoi c.new_client host.env))

  serve_retrieving-Leaves :
      (model : Model) (history : Option Bytes) (r : Result (Option RagSetup))
      → Leaves q
          (if_retriever r (λ s. probing) (dropped q host))
          (serve_retrieving rate is_zero limit_of zero_limit host c model history r)
  unfolding serve_retrieving serve_probing
  serve_retrieving-Leaves model history (err e) =
      left_open-Leaves q host (some (codes "serve: " ++ e))
  serve_retrieving-Leaves model history (ok retriever) =
      let tools = registered_tools host.find_terraform in
      holding-Leaves q qdrant_connection retriever _ probing (
        with_agent-Leaves q host (codes "serve") _ (host.react_error tools)
          (serve_probing rate is_zero limit_of zero_limit host c)
          (opened q probe_connection (probe_client host.atoi c.new_client host.env))
          (λ p.
            keeping-Leaves q probe_connection (probe_client host.atoi c.new_client host.env)
              (create_server rate is_zero limit_of zero_limit host c p
                (root_flag host.abs c.workspace_root))
              (create_server-Leaves p (root_flag host.abs c.workspace_root))))

  -- What serve leaves: the client of the probe; or that of a store that buildRetriever drops.
  abbrev pub served : ℕ
  served = if_ok (new host.construct host.settings) (λ model.
      if_retriever (build_retriever host.atoi (store_error host.qdrant) host.env) (λ s. probing)
        (dropped q host))

  serve_model-Leaves :
      (r : Result Model)
      → Leaves q
          (if_ok r (λ model.
            if_retriever
              (build_retriever host.atoi (store_error host.qdrant) host.env)
              (λ s. probing)
              (dropped q host)))
          (serve_model rate is_zero limit_of zero_limit host c r)
  unfolding serve_model serve_storing failed
  serve_model-Leaves (err e) = refl
  serve_model-Leaves (ok model) =
      let r = build_retriever host.atoi (store_error host.qdrant) host.env in
      let history = opened_history c.database (history_path c.os c.tree host.env c.home).1 in
      holding-Leaves q history_database history
        (serve_retrieving rate is_zero limit_of zero_limit host c model history r)
        (if_retriever r (λ s. probing) (dropped q host)) (serve_retrieving-Leaves model history r)

  run_serve-Leaves : Leaves q served (run_serve rate is_zero limit_of zero_limit host c)
  unfolding run_serve
  run_serve-Leaves =
      holding-Leaves q trace_handler (setup_tracing host.env)
        (serve_model rate is_zero limit_of zero_limit host c (new host.construct host.settings))
        served (serve_model-Leaves (new host.construct host.settings))

  -- What ask, generate, diagnose and serve still hold when they end, of each kind of resource, however they end: ask
  -- and generate hold nothing, except the client of a store whose collection could not be ensured; diagnose holds
  -- that one, or the connection of the retriever if there is one; and serve holds that one, or, if the agent could be
  -- constructed, the client of the readiness probe of Qdrant if there is one. The database of the history and the
  -- trace handler are always released.
  pub commands-Leaves :
      (dir question out_dir description plan_file : Bytes) (read : Bytes → Result Bytes)
      (stat : Result Bool) (stdin : Result Bytes)
      → Leaves q (after_setup q host (λ s. 0)) (run_ask host dir question)
        × Leaves q (after_setup q host (λ s. 0)) (run_generate host out_dir description)
        × Leaves q
            (if_ok
              (plan_content plan_file read stat stdin)
              (λ content. after_setup q host (opened q qdrant_connection)))
            (run_diagnose host plan_file dir read stat stdin)
        × Leaves q served (run_serve rate is_zero limit_of zero_limit host c)
  commands-Leaves dir question out_dir description plan_file read stat stdin = (
    run_ask-Leaves q host dir question,
    run_generate-Leaves q host out_dir description,
    run_diagnose-Leaves q host plan_file dir read stat stdin,
    run_serve-Leaves,
  )
