-- ===== src/Agent/Session/Transcript.antt =====
-- What a query of a session is shown of the earlier ones.
use tfai_go.Base.{◌+◌, ◌*◌, ℤ}
use tfai_go.Agent.Messages.{history_messages}
use tfai_go.Base.{
  ◌≡◌, ◌≢◌, zero, suc, ◌≤◌, ◌*◌, List, [], ◌∷◌, take, append_assoc, codes, Result, ok, err,
}
use tfai_go.Budget.{Message}
use tfai_go.Store.{Table, append}

-- A message of the user or of the assistant, which the switch on the role keeps.
abbrev IsTurn : Message → Type 0
IsTurn m = history_messages (m ∷ []) ≡ m ∷ []
