-- ===== src/Server/Routes/Files.antt =====
-- Which files a request to the server can change.
use tfai_go.Base.{ℕ, ◌≡◌, ◌≢◌, refl, true, false, Bytes, codes, Bool-cases, inl, inr}
use tfai_go.Path.{clean, is_abs}
use tfai_go.Path.Join.{is_abs-filled}
use tfai_go.Path.Prefix.{Within}
use tfai_go.Disk.Same.{SameFile, SameFile-refl}
use tfai_go.Auth.{Gate, pass, missing_header, invalid_token, auth_middleware}
use tfai_go.RateLimit.{Rate, RateLimiter, Verdict, served, rejected, handle}
use tfai_go.RateLimit.Client.{client_ip}
use tfai_go.Workspace.Save.Outside.{handle_file_save-SameFile}
use tfai_go.Workspace.Scaffold.Confined.{handle_workspace_create-SameFile}
use tfai_go.Server.Routes.{
  gate_middleware, file_reply, metrics_middleware, chat_reply, protected, on_tree, Call, post_chat,
  get_workspace, post_workspace_create, get_file, put_file, get_health, get_ready, get_config,
  Request, Setup, ResponseWriter, Serving, serve, serve_call, after_gate, after_limit,
  limit_middleware, wrap_writer, is_protected,
}
use tfai_go.Server.Routes.Access.{served_chat, serve-protected, serve-unprotected}

module _ (rate : Rate) (u : Setup) (other : Bytes) (rooted : is_abs u.workspace_root ≡ true)
    (deep : clean u.workspace_root ≢ codes "/")
    (away : ¬ Within (clean u.workspace_root) other) where
  serve_call-SameFile :
      (req : Request) (call : Call) (w : ResponseWriter) (s : Serving rate)
      → w.flushes ≡ false
      → SameFile (serve_call rate u req call w s).0.tree s.tree other
  unfolding serve_call on_tree chat_reply file_reply
  serve_call-SameFile req (post_chat body) w s f =
      rw (served_chat rate u req body w s f).0 (SameFile-refl s.tree other)
  serve_call-SameFile req (get_workspace dir) w s f = SameFile-refl s.tree other
  serve_call-SameFile req (post_workspace_create body) w s f =
      handle_workspace_create-SameFile u.os other u.workspace_root rooted deep away s.tree body
  serve_call-SameFile req (get_file path workspace_dir) w s f = SameFile-refl s.tree other
  serve_call-SameFile req (put_file body) w s f =
      handle_file_save-SameFile u.os other u.workspace_root (is_abs-filled u.workspace_root rooted)
        away s.tree body
  serve_call-SameFile req get_health w s f = SameFile-refl s.tree other
  serve_call-SameFile req get_ready w s f = SameFile-refl s.tree other
  serve_call-SameFile req get_config w s f = SameFile-refl s.tree other

  module _ (req : Request) (now : ℕ) (w : ResponseWriter) (f : w.flushes ≡ false) where
    limited-SameFile :
        (s : Serving rate) (limiter : RateLimiter rate) (v : Verdict)
        → SameFile
            (after_limit rate
              (serve_call rate u req req.call)
              w
              (record s { limiter = limiter })
              v).0.tree
            s.tree
            other
    unfolding after_limit
    limited-SameFile s limiter served =
        serve_call-SameFile req req.call w (record s { limiter = limiter }) f
    limited-SameFile s limiter rejected = SameFile-refl s.tree other

    gated-SameFile :
        (s : Serving rate) (g : Gate)
        → SameFile
            (after_gate rate
              (limit_middleware rate req.remote_addr now (serve_call rate u req req.call))
              w
              s
              g).0.tree
            s.tree
            other
    unfolding after_gate limit_middleware
    gated-SameFile s pass =
        let (limiter, verdict) = handle rate s.limiter (client_ip req.remote_addr) now in
        limited-SameFile s limiter verdict
    gated-SameFile s missing_header = SameFile-refl s.tree other
    gated-SameFile s invalid_token = SameFile-refl s.tree other

  -- With an absolute workspace root that is not the root of the file system, no request over the wired
  -- routes, whatever it holds, whoever sends it and wherever its handler fails, makes, changes or removes a
  -- file outside the root.
  pub serve-SameFile :
      (req : Request) (now : ℕ) (w : ResponseWriter) (s : Serving rate)
      → SameFile (serve rate u req now w s).0.tree s.tree other
  unfolding protected metrics_middleware gate_middleware wrap_writer
  serve-SameFile req now w s = elim (Bool-cases (is_protected req.call)) [
    | inl e ↦ rw (serve-protected rate u req now w s e) (
        gated-SameFile req now (wrap_writer (wrap_writer w)) refl s
          (auth_middleware u.api_key req.authorization))
    | inr e ↦
        rw (serve-unprotected rate u req now w s e)
          (serve_call-SameFile req req.call (wrap_writer (wrap_writer w)) s refl)
  ]
