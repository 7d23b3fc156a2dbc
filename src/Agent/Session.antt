-- ===== src/Agent/Session.antt =====
-- The queries of one server one after the other, with their history in the SQLite store: Query of
-- internal/agent/agent.go over Recent and Append of internal/store/store.go.
pub mod Turns
pub mod Transcript
use tfai_go.Base.{
  ℕ, Option, none, some, List, [], ◌∷◌, ◌++◌, map, Bytes, codes, bytes_eq, Result, ok, err, pos,
  if◌then◌else◌,
}
use tfai_go.Budget.{Message}
use tfai_go.Disk.{Tree}
use tfai_go.Store.{Table, message_of}
use tfai_go.Store
use tfai_go.Agent.Messages.{Agent, Entry}
use tfai_go.Agent.Query.{Config, Services, World, Returned, new_agent, query}

-- schema.Message of a stored message
pub without_time : Store.Message → Message
without_time m = record { role = m.role; content = m.content }

pub shown : Result (List Store.Message) → Result (List Message)
unfolding without_time
shown (ok messages) = ok (map without_time messages)
shown (err message) = err message

-- history.Recent, as the agent calls it
pub recent_of : Table → Option Bytes → Bytes → ℕ → Result (List Message)
unfolding shown
recent_of table failed workspace_dir n = shown (Store.recent table failed workspace_dir (pos n))

-- A call of Query: what it reaches, the error of the database when the history is read, and the times at which
-- the message of the user and the answer are stored.
pub record Turn : Type 0 where
  pub services : Services
  pub content : Bytes
  pub workspace_dir : Bytes
  pub recent_failed : Option Bytes
  pub asked_at : ℕ
  pub answered_at : ℕ

-- What a call leaves behind for the next one.
pub record Conversation : Type 0 where
  pub tree : Tree
  pub table : Table

pub stored_at : Turn → Message → ℕ
stored_at turn m = if bytes_eq m.role (codes "user") then turn.asked_at else turn.answered_at

-- The calls of Append that went through.
pub store_turns : Turn → Table → List (Bytes × Message) → Table
unfolding stored_at
store_turns turn table [] = table
store_turns turn table ((dir, m) ∷ turns) =
    store_turns turn (Store.append table none (stored_at turn m) dir m.role m.content).0 turns

module _ (workspace_root system_prompt : Bytes) (walk : Tree → Bytes → List Entry)
    (cfg : Config) where
  -- The agent that New makes of a configuration with the store.
  pub agent_with : Conversation → Option Bytes → Agent
  unfolding recent_of
  agent_with c failed =
      new_agent system_prompt (walk c.tree)
        (record cfg { recent = some (recent_of c.table failed) })

  pub asked : Conversation → Turn → Returned
  unfolding agent_with
  asked c turn =
      query turn.services workspace_root (agent_with c turn.recent_failed)
        (record { tree = c.tree; sent = []; history = [] }) turn.content turn.workspace_dir

  pub continued : Conversation → Turn → Returned → Conversation
  unfolding store_turns
  continued c turn (w, returned) = record {
    tree = w.tree;
    table = store_turns turn c.table w.history;
  }

  -- A session, with what each query returned.
  pub converse : Conversation → List Turn → Conversation × List (Turn × Returned)
  unfolding asked continued
  converse c [] = (c, [])
  converse c (turn ∷ turns) =
      let r = asked c turn in
      let (last, rest) = converse (continued c turn r) turns in (last, (turn, r) ∷ rest)
