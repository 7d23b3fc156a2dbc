-- ===== src/Server/Routes/Access.antt =====
-- What a request has to pass before a handler sees it.
use tfai_go.Base.{◌≡◌, ◌≢◌, ◌∙◌, refl, sym, ap, ℕ, true, false, Option, [], Bytes}
use tfai_go.Auth.{Gate, pass, missing_header, invalid_token, auth_middleware}
use tfai_go.Auth.Token.{IsBearer, auth_pass_iff}
use tfai_go.RateLimit.{Rate, RateLimiter, Verdict, served, rejected, handle}
use tfai_go.RateLimit.Client.{client_ip}
use tfai_go.Server.Chat.{Outcome, ChatRequest, streamed}
use tfai_go.Server.Chat.Refused.{handle_chat-refused}
use tfai_go.Server.Routes.{
  put_file, get_file, post_workspace_create, get_workspace, metrics_middleware, serve_call,
  chat_reply, on_tree, request_logger, Call, post_chat, get_health, get_ready, get_config, Request,
  Reply, unauthorized, chatted, Setup, ResponseWriter, Serving, Handler, is_protected, serve,
  protected, unprotected, after_gate, after_limit, gate_middleware, limit_middleware, wrap_writer,
}

-- The files are as they were, and the reply is not an event stream.
abbrev pub IsChatless : {rate : Rate} → Serving rate → Serving rate × Reply → Type 0
IsChatless s r =
    (r.0.tree ≡ s.tree)
    × ((cors : Option Bytes) (sent : Bytes) (outcome : Outcome)
        → r.1 ≢ chatted (streamed cors sent outcome))

module _ (rate : Rate) (u : Setup) where
  serve_call_open :
      (call : Call)
      → is_protected call ≡ false
      → (a b : Request) (v w : ResponseWriter) (s t : Serving rate)
      → serve_call rate u a call v s ≡ (s, (serve_call rate u b call w t).1)
  unfolding serve_call
  serve_call_open (post_chat body) h = cc
  serve_call_open (get_workspace dir) h = cc
  serve_call_open (post_workspace_create body) h = cc
  serve_call_open (get_file path workspace_dir) h = cc
  serve_call_open (put_file body) h = cc
  serve_call_open get_health h = λ a b v w s t. refl
  serve_call_open get_ready h = λ a b v w s t. refl
  serve_call_open get_config h = λ a b v w s t. refl

  pub serve-unprotected :
      (req : Request) (now : ℕ) (w : ResponseWriter) (s : Serving rate)
      → is_protected req.call ≡ false
      → serve rate u req now w s ≡ serve_call rate u req req.call (wrap_writer (wrap_writer w)) s
  unfolding serve request_logger unprotected metrics_middleware
  serve-unprotected req now w s h = rw h refl

  pub served_chat :
      (req : Request) (body : Option ChatRequest) (w : ResponseWriter) (s : Serving rate)
      → w.flushes ≡ false
      → IsChatless s (serve_call rate u req (post_chat body) w s)
  unfolding serve_call chat_reply on_tree
  served_chat req body w s f =
      let (status, text, e) =
        handle_chat-refused u.port u.query
          (record {
            client = req.client;
            flushes = w.flushes;
            origin = req.origin;
            expired = req.expired;
          })
          s.tree body f in
      rw e (refl, λ cors sent outcome h. cc)

module _ (rate : Rate) (u : Setup) (req : Request) (now : ℕ) (w : ResponseWriter) where
  pub serve-protected :
      (s : Serving rate)
      → is_protected req.call ≡ true
      → serve rate u req now w s
        ≡ protected rate u req now (serve_call rate u req req.call) (wrap_writer w) s
  unfolding serve request_logger
  serve-protected s h = rw h refl

  abbrev inner : ResponseWriter
  inner = wrap_writer (wrap_writer w)

  blocked :
      (s : Serving rate) (next : Handler rate) (g : Gate)
      → g ≢ pass
      → (gate : Gate) × (after_gate rate next inner s g ≡ (s, unauthorized gate))
  unfolding after_gate
  blocked s next pass ne = absurd (ne refl)
  blocked s next missing_header ne = (missing_header, refl)
  blocked s next invalid_token ne = (invalid_token, refl)

  -- With a key set, a request to a protected route whose header does not present the key is answered 401,
  -- and nothing changes: neither the files nor the state of the rate limiter.
  pub serve-unauthorized :
      (s : Serving rate)
      → u.api_key ≢ []
      → is_protected req.call ≡ true
      → ¬ IsBearer req.authorization u.api_key
      → (gate : Gate) × (serve rate u req now w s ≡ (s, unauthorized gate))
  unfolding protected metrics_middleware gate_middleware
  serve-unauthorized s key h away =
      let next = limit_middleware rate req.remote_addr now (serve_call rate u req req.call) in
      let gate = auth_middleware u.api_key req.authorization in
      let (g, e) =
        blocked s next gate (λ p. away ((auth_pass_iff u.api_key req.authorization key).0 p)) in
      (g, serve-protected s h ∙ e)

  -- A request to one of the routes for probes and for the start of the UI changes nothing, and its reply
  -- depends on nothing but the route and the setup: not on the key presented, the address, the time, the
  -- files or the rate limiter.
  pub serve_open :
      (s : Serving rate)
      → is_protected req.call ≡ false
      → ((serve rate u req now w s).0 ≡ s)
        × ((other : Request) (later : ℕ) (v : ResponseWriter) (t : Serving rate)
            → other.call ≡ req.call
            → (serve rate u other later v t).1 ≡ (serve rate u req now w s).1)
  unfolding serve
  serve_open s h = (
    ap (λ r. r.0) (serve-unprotected rate u req now w s h)
        ∙ ap (λ r. r.0) (serve_call_open rate u req.call h req req inner inner s s),
    λ other later v t e.
        ap (λ r. r.1) (serve-unprotected rate u other later v t (rw e h))
        ∙ ap (λ call. (serve_call rate u other call inner t).1) e
        ∙ ap (λ r. r.1) (serve_call_open rate u req.call h other req inner inner t s)
        ∙ sym (ap (λ r. r.1) (serve-unprotected rate u req now w s h)),
  )

  limited_chat :
      (s : Serving rate) (limiter : RateLimiter rate) (body : Option ChatRequest) (v : Verdict)
      → IsChatless s (
          after_limit rate
            (serve_call rate u req (post_chat body))
            inner
            (record s { limiter = limiter })
            v)
  unfolding after_limit wrap_writer
  limited_chat s limiter body served =
      served_chat rate u req body inner (record s { limiter = limiter }) refl
  limited_chat s limiter body rejected = (refl, λ cors sent outcome e. cc)

  gated_chat :
      (s : Serving rate) (body : Option ChatRequest) (g : Gate)
      → IsChatless s (
          after_gate rate
            (limit_middleware rate req.remote_addr now (serve_call rate u req (post_chat body)))
            inner
            s
            g)
  unfolding after_gate limit_middleware
  gated_chat s body pass =
      let (limiter, verdict) = handle rate s.limiter (client_ip req.remote_addr) now in
      limited_chat s limiter body verdict
  gated_chat s body missing_header = (refl, λ cors sent outcome e. cc)
  gated_chat s body invalid_token = (refl, λ cors sent outcome e. cc)

  -- No chat request is ever answered with an event stream, and none reaches the agent: the writers that the
  -- middleware hands on cannot be flushed, so the files stay as they are and the reply is a refusal.
  pub serve_chat_refused :
      (s : Serving rate) (body : Option ChatRequest)
      → req.call ≡ post_chat body
      → IsChatless s (serve rate u req now w s)
  unfolding protected metrics_middleware gate_middleware serve_call
  serve_chat_refused s body h =
      rw (serve-protected s (rw h refl))
        (rw h (gated_chat s body (auth_middleware u.api_key req.authorization)))
