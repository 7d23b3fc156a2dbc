-- ===== src/Server/Metrics/Past.antt =====
-- What has happened in a run of the chats, and what of it the metrics do not show yet.
use tfai_go.Base.{
  ◌≡◌, ◌∙◌, refl, sym, ap, inl, inr, ℕ, ◌+◌, ◌-◌, Bool, true, false, List, [], ◌∷◌, ◌++◌, Bytes,
  codes, length, length-append, arith,
}
use tfai_go.Server.Chat.{Outcome, completed, failed, timed_out}
use tfai_go.Server.Metrics.{
  outcome_label, Counters, inc, new_chat_metrics, Phase, streaming, counted, observed, Chats, Step,
  begins, counts, observes, leaves, panics, Reach, here, next,
}

abbrev pub idle : Chats
idle = record { metrics = new_chat_metrics; running = [] }

-- What has happened on the way: the chats that were begun, the outcomes of those that were counted, the last one
-- first, and the chats whose Query panicked.
pub record Past : Type 0 where
  pub begun : ℕ
  pub outcomes : List Outcome
  pub panicked : ℕ

abbrev pub nothing : Past
nothing = record { begun = 0; outcomes = []; panicked = 0 }

abbrev pub after_step : {s t : Chats} → Past → Step s t → Past
after_step p (begins e) = record p { begun = p.begun + 1 }
after_step p (counts outcome before behind h e) = record p { outcomes = outcome ∷ p.outcomes }
after_step p (observes outcome before behind h e) = p
after_step p (leaves before behind h e) = p
after_step p (panics before behind h e) = record p { panicked = p.panicked + 1 }

abbrev pub past : {s t : Chats} → Reach s t → Past
past here = nothing
past (next r st) = after_step (past r) st

-- How often an outcome is in the list.
abbrev pub same : Outcome → Outcome → ℕ
same completed completed = 1
same failed failed = 1
same timed_out timed_out = 1
same a b = 0

abbrev pub times : Outcome → List Outcome → ℕ
times a [] = 0
times a (b ∷ bs) = same a b + times a bs

-- The chats that run and have not been counted.
abbrev pub uncounted : List Phase → ℕ
uncounted [] = 0
uncounted (streaming ∷ phases) = uncounted phases + 1
uncounted (counted o ∷ phases) = uncounted phases
uncounted (observed ∷ phases) = uncounted phases

-- The chats that are counted with an outcome and whose duration has not been observed.
abbrev pub pending : Outcome → List Phase → ℕ
pending a [] = 0
pending a (streaming ∷ phases) = pending a phases
pending a (counted o ∷ phases) = same a o + pending a phases
pending a (observed ∷ phases) = pending a phases

pub uncounted-append : (xs ys : List Phase) → uncounted (xs ++ ys) ≡ uncounted xs + uncounted ys
uncounted-append [] ys = omega arith
uncounted-append (streaming ∷ xs) ys = omega (arith, uncounted-append xs ys)
uncounted-append (counted o ∷ xs) ys = uncounted-append xs ys
uncounted-append (observed ∷ xs) ys = uncounted-append xs ys

pub pending-append :
    (a : Outcome) (xs ys : List Phase) → pending a (xs ++ ys) ≡ pending a xs + pending a ys
pending-append a [] ys = omega arith
pending-append a (streaming ∷ xs) ys = pending-append a xs ys
pending-append a (counted o ∷ xs) ys = omega (arith, pending-append a xs ys)
pending-append a (observed ∷ xs) ys = pending-append a xs ys

pub inc-same :
    (counters : Counters) (a b : Outcome)
    → inc counters (outcome_label b) (outcome_label a) ≡ same a b + counters (outcome_label a)
unfolding inc outcome_label tfai_go.Base.bytes_eq
inc-same counters completed completed = omega arith
inc-same counters completed failed = omega arith
inc-same counters completed timed_out = omega arith
inc-same counters failed completed = omega arith
inc-same counters failed failed = omega arith
inc-same counters failed timed_out = omega arith
inc-same counters timed_out completed = omega arith
inc-same counters timed_out failed = omega arith
inc-same counters timed_out timed_out = omega arith
