-- ===== src/Agent/Query.antt =====
-- New and Query of internal/agent/agent.go: the limits of an agent, the reading of the answer of the
-- model, the check of the directory, the files, and the turns that are kept.
pub mod Confined
pub mod History
use tfai_go.Base.{
  ◌*◌, ℕ, ◌+◌, Bool, true, false, Option, none, some, List, [], ◌∷◌, ◌++◌, Bytes, codes, bytes_eq,
  has_prefix, length, ltb, Result, ok, err, ℤ, is_nonpos, pos_part, not, ◌&&◌, if◌then◌else◌,
}
use tfai_go.Path.{separator, clean}
use tfai_go.Disk.{Tree, Os}
use tfai_go.Budget.{Message, default_max_context_tokens}
use tfai_go.Agent.Apply.{GeneratedFile, TerraformAgentOutput, ApplyError, apply_files}
use tfai_go.Agent.Messages.{Agent, Entry, user_message, assistant_message, build_messages}
use tfai_go.Rag.{Document}

-- A limit of Config: the default where the setting is not positive.
unfoldable pub or_default : ℤ → ℕ → ℕ
or_default n default = if is_nonpos n then default else pos_part n

-- Config, but for the model and its tools, which the stream of `Services` stands for, and for the root of
-- the workspace, which is an argument of `query`.
pub record Config : Type 0 where
  pub recent : Option (Bytes → ℕ → Result (List Message))
  pub history_depth : ℤ
  pub retrieve : Option (Bytes → ℕ → Result (List Document))
  pub rag_top_k : ℤ
  pub max_context_tokens : ℤ

-- New, with a model
unfoldable pub new_agent : Bytes → (Bytes → List Entry) → Config → Agent
unfolding or_default
new_agent system_prompt walk cfg = record {
  system_prompt = system_prompt;
  recent = cfg.recent;
  history_depth = or_default cfg.history_depth 10;
  retrieve = cfg.retrieve;
  rag_top_k = or_default cfg.rag_top_k 5;
  walk = walk;
  max_context_tokens = or_default cfg.max_context_tokens default_max_context_tokens;
}

-- What Query calls: the file system, json.Unmarshal, the stream of the ReAct agent (the files after it, since
-- the tools that the model asks for run in it and may change any, and the contents that Recv gives until io.EOF,
-- or the errors), the writer, and the store.
pub record Services : Type 0 where
  pub os : Os
  pub parse_agent_output : Bytes → Result TerraformAgentOutput
  pub stream : Tree → List Message → Tree × Result (List (Result Bytes))
  pub write_error : Bytes → Option Bytes
  pub append_error : Bytes → Message → Option Bytes

-- The files, the texts handed to the writer, and the rows of the store.
pub record World : Type 0 where
  pub tree : Tree
  pub sent : List Bytes
  pub history : List (Bytes × Message)

pub data QueryError : Type 0 where
  stream_failed receive_failed write_failed : Bytes → QueryError
  too_large outside_root : QueryError
  apply_failed : ApplyError → QueryError

-- What Query returns: whether it wrote files, and the error.
abbrev pub Returned : Type 0
Returned = World × (Bool × Option QueryError)

abbrev pub max_response_bytes : ℕ
max_response_bytes = 4 * 1048576

-- The loop over the stream.
pub data Gathered : Type 0 where
  whole : Bytes → Gathered
  broken : QueryError → Gathered

pub gather : Bytes → List (Result Bytes) → Gathered
gather msg_buf [] = whole msg_buf
gather msg_buf (err message ∷ msgs) = broken (receive_failed message)
gather msg_buf (ok content ∷ msgs) =
    let rest = gather (msg_buf ++ content) msgs in
    if bytes_eq content []
    then gather msg_buf msgs
    else if ltb max_response_bytes (length msg_buf + length content)
    then broken too_large
    else rest

pub receive : Result (List (Result Bytes)) → Gathered
unfolding gather
receive (err message) = broken (stream_failed message)
receive (ok msgs) = gather [] msgs

module _ (s : Services) where
  -- history.Append, whose failure is only logged
  unfoldable pub append : Bytes → Message → List (Bytes × Message) → List (Bytes × Message)
  append workspace_dir m history = elim (s.append_error workspace_dir m) [
    | none ↦ history ++ (workspace_dir, m) ∷ []
    | some message ↦ history
  ]

  -- The two turns, if there is a store.
  unfoldable pub persist :
      Option (Bytes → ℕ → Result (List Message))
      → Bytes
      → Bytes
      → Bytes
      → List (Bytes × Message)
      → List (Bytes × Message)
  unfolding append
  persist none workspace_dir content answer history = history
  persist (some recent) workspace_dir content answer history =
      append workspace_dir (assistant_message answer)
        (append workspace_dir (user_message content) history)

  -- The raw text: written, and then kept.
  pub send_raw : Agent → World → Bytes → Bytes → Bytes → Option Bytes → Returned
  unfolding persist
  send_raw a w workspace_dir content answer (some message) = (
    record { tree = w.tree; sent = w.sent ++ answer ∷ []; history = w.history },
    (false, some (write_failed message)),
  )
  send_raw a w workspace_dir content answer none = (
    record {
      tree = w.tree;
      sent = w.sent ++ answer ∷ [];
      history = persist a.recent workspace_dir content answer w.history;
    },
    (false, none),
  )

  pub applied : World → Bytes → Tree × Option ApplyError → Returned
  applied w summary (after, none) =
      (record { tree = after; sent = w.sent ++ summary ∷ []; history = w.history }, (true, none))
  applied w summary (after, some e) =
      (record { tree = after; sent = w.sent; history = w.history }, (false, some (apply_failed e)))

  -- The branch on what the answer parses to.
  pub deliver_output :
      Agent → World → Bytes → Bytes → Bytes → Result TerraformAgentOutput → Returned
  unfolding send_raw applied
  deliver_output a w workspace_dir content answer (err message) =
      send_raw a w workspace_dir content answer (s.write_error answer)
  deliver_output a w workspace_dir content answer (ok output) =
      if ltb 0 (length output.files)
      then applied w output.summary (apply_files s.os w.tree output workspace_dir)
      else send_raw a w workspace_dir content answer (s.write_error answer)

  pub deliver : Agent → World → Bytes → Bytes → Bytes → Returned
  unfolding deliver_output
  deliver a w workspace_dir content answer =
      if not (bytes_eq workspace_dir [])
      then deliver_output a w workspace_dir content answer (s.parse_agent_output answer)
      else send_raw a w workspace_dir content answer (s.write_error answer)

  pub is_outside : Bytes → Bytes → Bool
  is_outside workspace_root workspace_dir =
      not (bytes_eq workspace_root [])
      && not (
          has_prefix (clean workspace_dir ++ separator ∷ [])
            (clean workspace_root ++ separator ∷ []))

  pub answer_query : Bytes → Agent → World → Bytes → Bytes → Gathered → Returned
  unfolding deliver is_outside
  answer_query workspace_root a w content workspace_dir (broken e) = (w, (false, some e))
  answer_query workspace_root a w content workspace_dir (whole answer) =
      if is_outside workspace_root workspace_dir
      then (w, (false, some outside_root))
      else deliver a w workspace_dir content answer

  -- The call of Stream, and what it leaves: the files as the tools have left them.
  abbrev pub streamed : Agent → World → Bytes → Bytes → Tree × Result (List (Result Bytes))
  streamed a w content workspace_dir = s.stream w.tree (build_messages a content workspace_dir)

  abbrev pub after_stream : Agent → World → Bytes → Bytes → World
  after_stream a w content workspace_dir = record {
    tree = (streamed a w content workspace_dir).0;
    sent = w.sent;
    history = w.history;
  }

  -- Query
  pub query : Bytes → Agent → World → Bytes → Bytes → Returned
  unfolding receive answer_query
  query workspace_root a w content workspace_dir =
      answer_query workspace_root a (after_stream a w content workspace_dir) content workspace_dir
        (receive (streamed a w content workspace_dir).1)
