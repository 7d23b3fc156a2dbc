-- ===== src/Budget.antt =====
-- internal/budget/budget.go: the token estimate and the trimming of the history.
pub mod Trim
mod Tests
use tfai_go.Base.{
  ℕ, ◌+◌, ◌/◌, Bool, List, [], ◌∷◌, Bytes, length, ◌==◌, ltb, leb, if◌then◌else◌, ◌&&◌,
}

-- The two fields of a chat message that the program reads and writes.
pub record Message : Type 0 where
  pub role : Bytes
  pub content : Bytes

abbrev pub chars_per_token : ℕ
chars_per_token = 4

abbrev pub default_max_context_tokens : ℕ
default_max_context_tokens = 6000

-- Estimate
pub estimate : Bytes → ℕ
estimate s = let n = length s / chars_per_token in if n == 0 && ltb 0 (length s) then 1 else n

-- EstimateMessages, its loop from a running total
pub estimate_from : ℕ → List Message → ℕ
estimate_from total [] = total
estimate_from total (m ∷ msgs) =
    estimate_from (total + 4 + estimate m.role + estimate m.content) msgs

pub estimate_messages : List Message → ℕ
unfolding estimate_from
estimate_messages msgs = estimate_from 0 msgs

-- The loop of TrimHistory: the oldest message goes until the rest fits.
pub drop_oldest : ℕ → List Message → ℕ → List Message
drop_oldest fixed_tokens [] max_tokens = []
drop_oldest fixed_tokens (m ∷ history) max_tokens =
    let rest = drop_oldest fixed_tokens history max_tokens in
    if leb (fixed_tokens + estimate_messages (m ∷ history)) max_tokens then m ∷ history else rest

-- TrimHistory
pub trim_history : List Message → List Message → ℕ → List Message
unfolding drop_oldest
trim_history fixed [] max_tokens = []
trim_history fixed (m ∷ history) max_tokens =
    drop_oldest (estimate_messages fixed) (m ∷ history) max_tokens
