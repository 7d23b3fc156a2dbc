-- ===== src/Budget/Trim.antt =====
-- TrimHistory keeps the longest run of newest messages that fits the budget.
use native.Mathlib.Nat.{add_assoc, add-zero, zero-add}
use tfai_go.Base.{
  ℕ, ◌+◌, ◌*◌, ◌≤◌, ◌<◌, ◌≡◌, refl, ap, ◌∙◌, if◌then◌else◌, ◌⊎◌, inl, inr, List, [], ◌∷◌, ◌++◌,
  Bytes, length, length-append, leb, Bool-cases, arith,
}
use tfai_go.Budget.{Message, estimate, estimate_from, estimate_messages, drop_oldest, trim_history}

-- Estimate is the length over four, rounded down, except that a text that is not empty counts for
-- at least one token.
pub estimate_bounds :
    (s : Bytes)
    → (4 * estimate s ≤ length s + 3)
      × (length s < 4 * estimate s + 4)
      × (0 < length s → 0 < estimate s)
unfolding estimate
estimate_bounds s = ground arith

estimate_from-add :
    (a b : ℕ) (msgs : List Message) → estimate_from (a + b) msgs ≡ a + estimate_from b msgs
unfolding estimate_from
estimate_from-add a b [] = refl
estimate_from-add a b (m ∷ msgs) =
    ap (λ (n : ℕ). estimate_from n msgs) (omega arith)
    ∙ estimate_from-add a (b + 4 + estimate m.role + estimate m.content) msgs

-- The loop adds one cost for each message.
pub estimate_messages-cons :
    (m : Message) (msgs : List Message)
    → estimate_messages (m ∷ msgs)
      ≡ 4 + estimate m.role + estimate m.content + estimate_messages msgs
unfolding estimate_messages estimate_from
estimate_messages-cons m msgs =
    rw (← estimate_from-add (4 + estimate m.role + estimate m.content) 0 msgs)
      (simp (add_assoc, add-zero, zero-add))

pub estimate_messages-append :
    (old kept : List Message)
    → estimate_messages (old ++ kept) ≡ estimate_messages old + estimate_messages kept
estimate_messages-append [] kept = unfold estimate_messages estimate_from in omega arith
estimate_messages-append (m ∷ old) kept = omega (
  arith,
  estimate_messages-cons m (old ++ kept),
  estimate_messages-cons m old,
  estimate_messages-append old kept,
)

abbrev pub Fits : List Message → List Message → ℕ → Type 0
Fits fixed history max_tokens = estimate_messages fixed + estimate_messages history ≤ max_tokens

-- What is dropped, in front of what is kept.
dropped_prefix : ℕ → List Message → ℕ → List Message
dropped_prefix fixed_tokens [] max_tokens = []
dropped_prefix fixed_tokens (m ∷ history) max_tokens =
    let rest = dropped_prefix fixed_tokens history max_tokens in
    if leb (fixed_tokens + estimate_messages (m ∷ history)) max_tokens then [] else m ∷ rest

dropped_prefix-append :
    (n : ℕ) (history : List Message) (max_tokens : ℕ)
    → dropped_prefix n history max_tokens ++ drop_oldest n history max_tokens ≡ history
unfolding dropped_prefix drop_oldest
dropped_prefix-append n [] max_tokens = refl
dropped_prefix-append n (m ∷ history) max_tokens =
    ground (arith, dropped_prefix-append n history max_tokens)

drop_oldest_fits :
    (n : ℕ) (history : List Message) (max_tokens : ℕ)
    → (drop_oldest n history max_tokens ≡ [])
      ⊎ (n + estimate_messages (drop_oldest n history max_tokens) ≤ max_tokens)
unfolding drop_oldest
drop_oldest_fits n [] max_tokens = inl refl
drop_oldest_fits n (m ∷ history) max_tokens =
    elim (Bool-cases (leb (n + estimate_messages (m ∷ history)) max_tokens)) [
      | inl e ↦ rw e (inr (ground arith))
      | inr e ↦ rw e (drop_oldest_fits n history max_tokens)
    ]

drop_oldest_longest :
    (n : ℕ) (old kept : List Message) (max_tokens : ℕ)
    → n + estimate_messages kept ≤ max_tokens
    → length kept ≤ length (drop_oldest n (old ++ kept) max_tokens)
unfolding drop_oldest
drop_oldest_longest n [] [] max_tokens fits = omega arith
drop_oldest_longest n [] (m ∷ kept) max_tokens fits = ground arith
drop_oldest_longest n (m ∷ old) kept max_tokens fits =
    ground (arith, drop_oldest_longest n old kept max_tokens fits, length-append old kept)

trim_history-drop_oldest :
    (fixed history : List Message) (max_tokens : ℕ)
    → trim_history fixed history max_tokens
      ≡ drop_oldest (estimate_messages fixed) history max_tokens
unfolding trim_history drop_oldest
trim_history-drop_oldest fixed [] max_tokens = refl
trim_history-drop_oldest fixed (m ∷ history) max_tokens = refl

-- TrimHistory drops messages from the front only, its result is empty or fits the budget together
-- with the fixed messages, and no longer run of newest messages fits.
pub trim_history_longest :
    (fixed history : List Message) (max_tokens : ℕ)
    → ((old : List Message) × (old ++ trim_history fixed history max_tokens ≡ history))
      × ((trim_history fixed history max_tokens ≡ [])
          ⊎ Fits fixed (trim_history fixed history max_tokens) max_tokens)
      × ((old kept : List Message)
          → old ++ kept ≡ history
          → Fits fixed kept max_tokens
          → length kept ≤ length (trim_history fixed history max_tokens))
trim_history_longest fixed history max_tokens = rw trim_history-drop_oldest (
  (dropped_prefix n history max_tokens, dropped_prefix-append n history max_tokens),
  drop_oldest_fits n history max_tokens,
  λ old kept e fits. rw (← e) (drop_oldest_longest n old kept max_tokens fits),
)
  where
    n : ℕ
    n = estimate_messages fixed
