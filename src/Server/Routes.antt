-- ===== src/Server/Routes.antt =====
-- The wiring of New in internal/server/server.go, with middleware.go: which handler serves a route, and
-- behind which middleware. Go's ServeMux has chosen the route already; `/metrics` and the static files
-- are served by code that is not in the repository.
pub mod Access
pub mod Files
use tfai_go.Base.{
  ℕ, Bool, true, false, Option, none, some, List, [], Bytes, codes, bytes_eq, Result, not,
  if◌then◌else◌,
}
use tfai_go.Disk.{Tree, Os}
use tfai_go.Auth.{Gate, pass, missing_header, invalid_token, auth_middleware}
use tfai_go.RateLimit.{Rate, RateLimiter, Verdict, served, rejected, handle}
use tfai_go.RateLimit.Client.{client_ip}
use tfai_go.Workspace.{Response, FileSaveRequest, handle_file_read, handle_file_save}
use tfai_go.Workspace.Scaffold.{CreateWorkspaceRequest, handle_workspace_create}
use tfai_go.Workspace.Listing.{Dirent, WorkspaceAnswer, handle_workspace}
use tfai_go.Server.Stream.{Client}
use tfai_go.Server.Chat.{Answer, ChatRequest, ChatResponse, refused, streamed, handle_chat}
use tfai_go.Server.Health.{Pinger, ReadyResponse, handle_ready}

-- The routes, with what the handler reads of the request.
pub data Call : Type 0 where
  post_chat : Option ChatRequest → Call
  get_workspace : Bytes → Call
  post_workspace_create : Result CreateWorkspaceRequest → Call
  get_file : Bytes → Bytes → Call
  put_file : Result FileSaveRequest → Call
  get_health get_ready get_config : Call

pub record Request : Type 0 where
  pub call : Call
  pub remote_addr : Bytes
  pub authorization : Bytes
  pub origin : Bytes
  -- the time of the chat's context is over when Query returns
  pub expired : Bool
  pub client : Client

pub data Reply : Type 0 where
  -- 401, for one of two reasons
  unauthorized : Gate → Reply
  -- 429
  too_many_requests : Reply
  chatted : ChatResponse → Reply
  listed : WorkspaceAnswer → Reply
  answered : Response → Reply
  healthy : Reply
  readiness : ℕ → ReadyResponse → Reply
  auth_required : Bool → Reply

-- What the server is built from.
pub record Setup : Type 0 where
  pub port : ℕ
  pub api_key : Bytes
  pub workspace_root : Bytes
  pub pingers : List Pinger
  pub query : Tree → Bytes → Bytes → Answer
  pub os : Os
  pub walk : Bytes → Option Dirent

-- responseWriter: it embeds http.ResponseWriter, an interface of Header, Write and WriteHeader only, so
-- the type assertion to http.Flusher fails on it whatever it wraps.
pub record ResponseWriter : Type 0 where
  pub flushes : Bool

pub wrap_writer : ResponseWriter → ResponseWriter
wrap_writer w = record { flushes = false }

-- handleConfig
pub handle_config : Bytes → Reply
handle_config api_key = auth_required (not (bytes_eq api_key []))

pub chat_reply : Tree × ChatResponse → Tree × Reply
chat_reply (tree, r) = (tree, chatted r)

pub file_reply : Tree × Response → Tree × Reply
file_reply (tree, r) = (tree, answered r)

pub ready_reply : ℕ × ReadyResponse → Reply
ready_reply (status, resp) = readiness status resp

-- The routes that New wraps in `protected`.
abbrev pub is_protected : Call → Bool
is_protected (post_chat body) = true
is_protected (get_workspace dir) = true
is_protected (post_workspace_create body) = true
is_protected (get_file path workspace_dir) = true
is_protected (put_file body) = true
is_protected get_health = false
is_protected get_ready = false
is_protected get_config = false

module _ (rate : Rate) where
  pub record Serving : Type 0 where
    pub limiter : RateLimiter rate
    pub tree : Tree

  abbrev pub Handler : Type 0
  Handler = ResponseWriter → Serving → Serving × Reply

  -- metricsMiddleware
  pub metrics_middleware : Handler → Handler
  unfolding wrap_writer
  metrics_middleware next w s = next (wrap_writer w) s

  -- requestLogger
  pub request_logger : Handler → Handler
  unfolding wrap_writer
  request_logger next w s = next (wrap_writer w) s

  pub after_limit : Handler → ResponseWriter → Serving → Verdict → Serving × Reply
  after_limit next w s served = next w s
  after_limit next w s rejected = (s, too_many_requests)

  -- rateLimiter.middleware, of a request at a time
  pub limit_middleware : Bytes → ℕ → Handler → Handler
  unfolding after_limit
  limit_middleware remote_addr now next w s =
      let (limiter, verdict) = handle rate s.limiter (client_ip remote_addr) now in
      after_limit next w (record s { limiter = limiter }) verdict

  pub after_gate : Handler → ResponseWriter → Serving → Gate → Serving × Reply
  after_gate next w s pass = next w s
  after_gate next w s missing_header = (s, unauthorized missing_header)
  after_gate next w s invalid_token = (s, unauthorized invalid_token)

  -- authMiddleware around a handler
  pub gate_middleware : Bytes → Bytes → Handler → Handler
  unfolding after_gate
  gate_middleware api_key authorization next w s =
      after_gate next w s (auth_middleware api_key authorization)

  -- A handler that may change the files.
  pub on_tree : Serving → Tree × Reply → Serving × Reply
  on_tree s (tree, reply) = (record s { tree = tree }, reply)

  -- The handlers of the routes.
  pub serve_call : Setup → Request → Call → Handler
  unfolding on_tree chat_reply file_reply ready_reply handle_config
  serve_call u req (post_chat body) w s = on_tree s (
      chat_reply (
        handle_chat u.port u.query
          (record {
            client = req.client;
            flushes = w.flushes;
            origin = req.origin;
            expired = req.expired;
          })
          s.tree body))
  serve_call u req (get_workspace dir) w s =
      (s, listed (handle_workspace u.walk u.workspace_root s.tree dir))
  serve_call u req (post_workspace_create body) w s =
      on_tree s (file_reply (handle_workspace_create u.os u.workspace_root s.tree body))
  serve_call u req (get_file path workspace_dir) w s =
      (s, answered (handle_file_read u.os u.workspace_root s.tree path workspace_dir))
  serve_call u req (put_file body) w s =
      on_tree s (file_reply (handle_file_save u.os u.workspace_root s.tree body))
  serve_call u req get_health w s = (s, healthy)
  serve_call u req get_ready w s = (s, ready_reply (handle_ready u.pingers))
  serve_call u req get_config w s = (s, handle_config u.api_key)

  pub protected : Setup → Request → ℕ → Handler → Handler
  unfolding metrics_middleware gate_middleware limit_middleware
  protected u req now h =
      metrics_middleware
        (gate_middleware u.api_key req.authorization (limit_middleware req.remote_addr now h))

  pub unprotected : Handler → Handler
  unfolding metrics_middleware
  unprotected h = metrics_middleware h

  -- The mux that New builds, behind requestLogger, on a request at a time.
  pub serve : Setup → Request → ℕ → Handler
  unfolding protected unprotected request_logger serve_call
  serve u req now =
      let h = serve_call u req req.call in
      request_logger (if is_protected req.call then protected u req now h else unprotected h)
