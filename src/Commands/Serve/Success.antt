-- ===== src/Commands/Serve/Success.antt =====
-- The serve command where its set-up succeeds.
use tfai_go.Base.{◌∙◌, ap, ◌≡◌, Bool, true, Option, none, some, [], ◌∷◌, Bytes, codes, ℕ, ok}
use tfai_go.Rag.Collection.{store_error}
use tfai_go.Commands.{probe_client, RagSetup, registered_tools, build_retriever, setup_tracing}
use tfai_go.Commands.Run.{
  Host, Parts, Run, serves, qdrant_connection, history_database, trace_handler, probe_connection,
  holding, keeping, with_agent,
}
use tfai_go.Commands.Serve.{
  Command, server_config, after_new, create_server, root_flag, probes, serve_probing,
  serve_retrieving, serve_storing, serve_model, run_serve,
}
use tfai_go.Provider.FromEnv.{new}
use tfai_go.RateLimit.{Rate}
use tfai_go.Server.Lifecycle
use tfai_go.Server.Lifecycle.{Server, start}
use tfai_go.Commands.Serve.Started.{history_given}

module _ (rate : Rate) (is_zero : rate.Limit → Bool) (limit_of : ℕ → rate.Limit)
    (zero_limit : rate.Limit) {Float Model Runner : Type 0} (host : Host Float Model Runner)
    (c : Command rate is_zero limit_of zero_limit) where
  -- Where every step of the set-up succeeds, the serve command starts the server, holds what it has opened until the
  -- server ends, and ends with the error of the server.
  pub run_serve_serves :
      (model : Model) (retriever : Option RagSetup) (root : Bytes)
      → new host.construct host.settings ≡ ok model
      → build_retriever host.atoi (store_error host.qdrant) host.env ≡ ok retriever
      → host.react_error (registered_tools host.find_terraform) ≡ none
      → root_flag host.abs c.workspace_root ≡ ok root
      → c.static_error ≡ none
      → (parts : Parts Model) × (server : Server rate is_zero limit_of) × (run_serve rate is_zero
            limit_of zero_limit host c
          ≡ holding trace_handler (setup_tracing host.env) (
              holding history_database (history_given rate is_zero limit_of zero_limit host c) (
                holding qdrant_connection retriever (
                  keeping probe_connection (probe_client host.atoi c.new_client host.env) (
                    serves parts
                          (probes rate is_zero limit_of zero_limit host c)
                          server.addr
                          server.config.api_key
                          server.config.workspace_root
                        ∷ [],
                    (start rate is_zero limit_of server c.ending).1,
                  )))))
  unfolding run_serve serve_model serve_storing serve_retrieving with_agent serve_probing
      create_server after_new Lifecycle.new
  run_serve_serves model retriever root m r a f s =
      let tools = registered_tools host.find_terraform in
      let parts : Parts Model = record {
        model = model;
        tools = tools;
        retriever = retriever;
        history = (history_given rate is_zero limit_of zero_limit host c);
      } in
      let around = λ (run : Run Model).
        holding trace_handler (setup_tracing host.env)
          (holding history_database (history_given rate is_zero limit_of zero_limit host c) run) in
      let probing = λ (run : Run Model).
        keeping probe_connection (probe_client host.atoi c.new_client host.env) run in
      let next = serve_probing rate is_zero limit_of zero_limit host c in
      (
        parts,
        _,
        ap
              (λ x.
                holding trace_handler (setup_tracing host.env)
                  (serve_model rate is_zero limit_of zero_limit host c x))
              m
            ∙ ap
                (λ x. around (
                  serve_retrieving rate is_zero limit_of zero_limit host c model
                    (history_given rate is_zero limit_of zero_limit host c) x))
                r
            ∙ ap
                (λ x. around (
                  holding qdrant_connection retriever
                    (with_agent host (codes "serve") parts x next)))
                a
            ∙ ap
                (λ x. around (
                  holding qdrant_connection retriever
                    (probing (create_server rate is_zero limit_of zero_limit host c parts x))))
                f
            ∙ ap
                (λ x. around (
                  holding qdrant_connection retriever (
                    probing (
                      after_new rate is_zero limit_of zero_limit host c parts (
                        Lifecycle.new rate is_zero limit_of true
                          (server_config rate is_zero limit_of zero_limit [] 0 [] [])
                          (some (
                            server_config rate is_zero limit_of zero_limit c.host c.port
                              (host.env "TFAI_API_KEY") root))
                          x)))))
                s,
      )
