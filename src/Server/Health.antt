-- ===== src/Server/Health.antt =====
-- internal/server/health.go and pingers.go: the probes of the dependencies, and GET /api/ready.
-- A pinger is its name and what Ping returns at this request: none, or the text of the error.
pub mod Ready
use tfai_go.Base.{
  ℕ, Bool, true, false, not, Option, none, some, List, [], ◌∷◌, ◌++◌, Bytes, codes, Result, ok, err,
  if◌then◌else◌,
}

-- Pinger
pub record Pinger : Type 0 where
  pub name : Bytes
  pub ping : Option Bytes

-- MultiPinger.Ping: the first error, behind the name of its pinger
pub multi_ping : List Pinger → Option Bytes
multi_ping [] = none
multi_ping (p ∷ pingers) =
    let rest = multi_ping pingers in
    elim p.ping [ none ↦ rest | some e ↦ some (p.name ++ codes ": " ++ e) ]

-- LLMPinger.Ping: the health check of the backend if there is one, or else what Generate returns, a
-- message that may be nil.
pub llm_ping : Bytes → Option (Option Bytes) → Result Bool → Option Bytes
llm_ping name (some none) generated = none
llm_ping name (some (some e)) generated = some (name ++ codes " health check failed: " ++ e)
llm_ping name none (err e) = some (codes "generate failed: " ++ e)
llm_ping name none (ok true) = none
llm_ping name none (ok false) = some (codes "generate returned nil response")

-- QdrantPinger.Ping, by what the RPC returns
pub qdrant_ping : Option Bytes → Option Bytes
qdrant_ping none = none
qdrant_ping (some e) = some (codes "health check failed: " ++ e)

-- readyCheck
pub record ReadyCheck : Type 0 where
  pub name : Bytes
  pub is_ok : Bool
  pub error : Bytes

-- readyResponse
pub record ReadyResponse : Type 0 where
  pub ready : Bool
  pub checks : List ReadyCheck

pub check_of : Pinger → ReadyCheck
check_of p = elim p.ping [
  | none ↦ record { name = p.name; is_ok = true; error = [] }
  | some e ↦ record { name = p.name; is_ok = false; error = e }
]

-- The loop, from what is gathered so far.
pub probe : Bool → List ReadyCheck → List Pinger → ReadyResponse
unfolding check_of
probe all_ok checks [] = record { ready = all_ok; checks = checks }
probe all_ok checks (p ∷ pingers) =
    let check = check_of p in
    probe (if not check.is_ok then false else all_ok) (checks ++ check ∷ []) pingers

-- handleReady: the status and the body
pub handle_ready : List Pinger → ℕ × ReadyResponse
unfolding probe
handle_ready pingers =
    let resp = probe true [] pingers in (if not resp.ready then 503 else 200, resp)
