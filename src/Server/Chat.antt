-- ===== src/Server/Chat.antt =====
-- handleChat of internal/server/server.go: the guards, the stream of the querier's texts, and how it ends.
-- The querier is an interface: `Answer` is what one call of it does, a program that hands texts to the
-- writer and goes on by what Write returns, up to the files it leaves and its result.
-- The session id, the log lines and the gauge of active streams are left out.
pub mod Events
pub mod Refused
use tfai_go.Base.{
  ℕ, Bool, Option, none, some, [], ◌++◌, Bytes, codes, bytes_eq, Result, ok, err, not, ◌&&◌, ◌||◌,
  if◌then◌else◌,
}
use tfai_go.Path.{clean, is_abs}
use tfai_go.Disk.{Tree}
use tfai_go.Agent.Messages.{decimal}
use tfai_go.Server.Stream.{Client, sse_write, fprint, event_frame}

-- chatRequest
pub record ChatRequest : Type 0 where
  pub message : Bytes
  pub workspace_dir : Bytes

-- The label of the request's metrics.
pub data Outcome : Type 0 where
  completed failed timed_out : Outcome

pub data ChatResponse : Type 0 where
  -- http.Error
  refused : ℕ → Bytes → ChatResponse
  -- Access-Control-Allow-Origin where it is set, the bytes sent, and the outcome
  streamed : Option Bytes → Bytes → Outcome → ChatResponse

pub data Answer : Type 0 where
  finish : Tree → Result Bool → Answer
  write : Bytes → (Result ℕ → Answer) → Answer

-- The value of Access-Control-Allow-Origin, if the header is set.
pub allowed_origin : ℕ → Bytes → Option Bytes
allowed_origin port origin =
    if bytes_eq origin (codes "http://127.0.0.1:" ++ decimal port)
      || bytes_eq origin (codes "http://localhost:" ++ decimal port)
      || bytes_eq origin []
    then some origin
    else none

-- A frame that handleChat sends itself, whose error it drops.
pub send : Client → Bytes → Bytes → Bytes
unfolding fprint
send client sent frame = (fprint sent frame (client sent frame)).0

-- What follows the call of Query, by its result and by whether the time of the context is over.
pub close_stream : Client → Bool → Bytes → Result Bool → Bytes × Outcome
unfolding send
close_stream client expired sent (err message) =
    (send client sent (event_frame (codes "error") message), if expired then timed_out else failed)
close_stream client expired sent (ok files_written) =
    let so_far =
      if files_written
      then send client sent (event_frame (codes "files_written") (codes "true"))
      else sent in
    (send client so_far (event_frame (codes "done") (codes "[DONE]")), completed)

-- Query, writing through the sseWriter, and what follows it
pub run_answer : Client → Bool → Bytes → Answer → Tree × (Bytes × Outcome)
unfolding sse_write close_stream
run_answer client expired sent (finish tree result) =
    (tree, close_stream client expired sent result)
run_answer client expired sent (write p next) =
    let (after, r) = sse_write client sent p in run_answer client expired after (next r)

pub stream_answer : Option Bytes → Tree × (Bytes × Outcome) → Tree × ChatResponse
stream_answer cors (tree, (sent, outcome)) = (tree, streamed cors sent outcome)

-- What the handler finds of the connection: how the client takes frames, whether the response writer is an
-- http.Flusher, the Origin header, and whether the time of the context is over when Query returns.
pub record Connection : Type 0 where
  pub client : Client
  pub flushes : Bool
  pub origin : Bytes
  pub expired : Bool

-- handleChat, of a body that the JSON decoder refuses or reads
pub handle_chat :
    ℕ
    → (Tree → Bytes → Bytes → Answer)
    → Connection
    → Tree
    → Option ChatRequest
    → Tree × ChatResponse
unfolding run_answer stream_answer allowed_origin
handle_chat port query c tree none = (tree, refused 400 (codes "invalid request body"))
handle_chat port query c tree (some req) =
    if bytes_eq req.message []
    then (tree, refused 400 (codes "message is required"))
    else if not (bytes_eq req.workspace_dir []) && not (is_abs (clean req.workspace_dir))
    then (tree, refused 400 (codes "workspaceDir must be an absolute path"))
    else if not c.flushes
    then (tree, refused 500 (codes "streaming not supported"))
    else stream_answer (allowed_origin port c.origin)
        (run_answer c.client c.expired [] (query tree req.message req.workspace_dir))
