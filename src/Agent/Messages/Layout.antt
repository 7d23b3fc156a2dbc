-- ===== src/Agent/Messages/Layout.antt =====
-- The order and the budget of the messages that buildMessages makes.
use tfai_go.Base.{◌+◌, ◌≤◌, ◌≡◌, refl, ◌⊎◌, inl, inr, List, [], ◌∷◌, ◌++◌, Bytes, arith}
use tfai_go.Budget.{Message, estimate_messages, trim_history}
use tfai_go.Budget.Trim.{estimate_messages-append, estimate_messages-cons, trim_history_longest}
use tfai_go.Agent.Messages.{
  Agent, system_message, user_message, prior_messages, context_messages, build_messages,
}

-- The estimate does not see where the history stands among the fixed messages.
estimate_between :
    (first : Message) (history rest : List Message)
    → estimate_messages (first ∷ (history ++ rest))
      ≡ estimate_messages (first ∷ rest) + estimate_messages history
estimate_between first history rest = omega (
  arith,
  estimate_messages-cons first (history ++ rest),
  estimate_messages-cons first rest,
  estimate_messages-append history rest,
)

-- The system prompt is first and the user's message last; between them are the newest of the prior
-- messages, in their order, and then the documentation and the workspace. The whole fits the token budget
-- or no prior message is left.
pub build_messages_layout :
    (a : Agent) (content workspace_dir : Bytes)
    → (old kept : List Message) × (old ++ kept ≡ prior_messages a workspace_dir)
      × (build_messages a content workspace_dir
          ≡ system_message a.system_prompt
            ∷ (kept ++ (context_messages a content workspace_dir ++ user_message content ∷ [])))
      × ((kept ≡ [])
          ⊎ (estimate_messages (build_messages a content workspace_dir) ≤ a.max_context_tokens))
unfolding build_messages
build_messages_layout a content workspace_dir =
    (old, kept, split, refl, elim fits [ inl e ↦ inl e | inr h ↦ inr (whole h) ])
  where
    first : Message
    first = system_message a.system_prompt

    rest : List Message
    rest = context_messages a content workspace_dir ++ user_message content ∷ []

    history : List Message
    history = prior_messages a workspace_dir

    kept : List Message
    kept = trim_history (first ∷ rest) history a.max_context_tokens

    old : List Message
    old = (trim_history_longest (first ∷ rest) history a.max_context_tokens).0.0

    split : old ++ kept ≡ history
    split = (trim_history_longest (first ∷ rest) history a.max_context_tokens).0.1

    fits :
        (kept ≡ [])
        ⊎ (estimate_messages (first ∷ rest) + estimate_messages kept ≤ a.max_context_tokens)
    fits = (trim_history_longest (first ∷ rest) history a.max_context_tokens).1

    whole :
        estimate_messages (first ∷ rest) + estimate_messages kept ≤ a.max_context_tokens
        → estimate_messages (first ∷ (kept ++ rest)) ≤ a.max_context_tokens
    whole h = omega (arith, estimate_between first kept rest, h)
