-- ===== src/Agent/Session/Turns.antt =====
-- One query of a session: its transcript, what it leaves in the store, and the calls of Append it makes.
use tfai_go.Base.{
  ◌≡◌, ◌≢◌, ◌∙◌, refl, sym, ap, inl, inr, ℕ, zero, suc, ◌≤◌, ◌*◌, Bool, true, false, Option, none,
  some, List, [], ◌∷◌, ◌++◌, map, take, append_assoc, Bytes, codes, bytes_eq, Result, ok, err, pos,
  All, All-append, Bool-cases, Option-cases, arith, if◌then◌else◌,
}
use tfai_go.Budget.{Message}
use tfai_go.Disk.{Tree}
use tfai_go.Store.{Table, append, is_role}
use tfai_go.Store.Newest.{Call, IsTimed, run, kept, history}
use tfai_go.Agent.Messages.{Agent, user_message, assistant_message}
use tfai_go.Agent.Query
use tfai_go.Agent.Query.{Config, Services, World, Returned, QueryError, new_agent, persist, query}
use tfai_go.Agent.Query.History.{Kept, persist-turns_of}
use tfai_go.Agent.Session.{Turn, stored_at, store_turns, without_time}

-- The answer of a query that returned no error and wrote no files: the text that it sent.
abbrev pub answer_of : List Bytes → Bool → Option QueryError → Option Bytes
answer_of (answer ∷ []) false none = some answer
answer_of sent files error = none

abbrev pub spoken : Returned → Option Bytes
spoken (w, (files, error)) = answer_of w.sent files error

-- A message, unless the store failed to keep it.
abbrev pub accepted : Turn → Message → List Message
accepted turn m = elim (turn.services.append_error turn.workspace_dir m) [
  | none ↦ m ∷ []
  | some message ↦ []
]

abbrev pub exchange : Turn → Option Bytes → List Message
exchange turn none = []
exchange turn (some answer) =
    accepted turn (user_message turn.content) ++ accepted turn (assistant_message answer)

-- The specification: the questions about a workspace with the answers that were given, in their order.
abbrev pub transcript : Bytes → List (Turn × Returned) → List Message
transcript dir [] = []
transcript dir ((turn, r) ∷ turns) =
    (if bytes_eq turn.workspace_dir dir then exchange turn (spoken r) else [])
    ++ transcript dir turns

-- The clock does not go back within a turn or from one to the next.
abbrev pub IsSequential : ℕ → List Turn → Type 0
IsSequential last [] = Unit
IsSequential last (turn ∷ turns) =
    (last ≤ turn.asked_at)
    × (turn.asked_at ≤ turn.answered_at)
    × IsSequential turn.answered_at turns

abbrev pub call : Turn → ℕ → Message → Call
call turn now m = record {
  now = now;
  failed = turn.services.append_error turn.workspace_dir m;
  workspace = turn.workspace_dir;
  role = m.role;
  content = m.content;
}

unfoldable pub calls : Turn → Option Bytes → List Call
calls turn none = []
calls turn (some answer) =
    call turn turn.asked_at (user_message turn.content)
    ∷ call turn turn.answered_at (assistant_message answer)
    ∷ []

unfoldable pub all_calls : List (Turn × Returned) → List Call
all_calls [] = []
all_calls ((turn, r) ∷ turns) = calls turn (spoken r) ++ all_calls turns

pub run-append : (t : Table) (xs ys : List Call) → run t (xs ++ ys) ≡ run (run t xs) ys
unfolding run
run-append t [] ys = refl
run-append t (c ∷ xs) ys = run-append (append t c.failed c.now c.workspace c.role c.content).0 xs ys

store_turns-snoc :
    (turn : Turn) (t : Table) (turns : List (Bytes × Message)) (dir : Bytes) (m : Message)
    → store_turns turn t (turns ++ (dir, m) ∷ [])
      ≡ (append (store_turns turn t turns) none (stored_at turn m) dir m.role m.content).0
unfolding store_turns
store_turns-snoc turn t [] dir m = refl
store_turns-snoc turn t ((d, x) ∷ turns) dir m =
    store_turns-snoc turn (append t none (stored_at turn x) d x.role x.content).0 turns dir m

-- An Append of the agent is one of the store.
store_turns-append :
    (turn : Turn) (t : Table) (turns : List (Bytes × Message)) (m : Message)
    → store_turns turn t (Query.append turn.services turn.workspace_dir m turns)
      ≡ run (store_turns turn t turns) (call turn (stored_at turn m) m ∷ [])
unfolding run Query.append append store_turns
store_turns-append turn t turns m =
    elim (Option-cases (turn.services.append_error turn.workspace_dir m)) [
      | inl u ↦ rw (u, Query.append, append) (store_turns-snoc turn t turns turn.workspace_dir m)
      | inr (e, u) ↦ rw (u, Query.append, append) refl
    ]

store_turns-persist :
    (turn : Turn) (recent : Bytes → ℕ → Result (List Message)) (t : Table) (answer : Bytes)
    → store_turns turn t
        (persist turn.services (some recent) turn.workspace_dir turn.content answer [])
      ≡ run t (calls turn (some answer))
unfolding stored_at persist calls run store_turns tfai_go.Base.bytes_eq
store_turns-persist turn recent t answer =
    let u = user_message turn.content in
    let m = assistant_message answer in
    store_turns-append turn t (Query.append turn.services turn.workspace_dir u []) m
    ∙ ap (λ c. run c (call turn turn.answered_at m ∷ [])) (store_turns-append turn t [] u)

-- A query that did not answer, by what it returned.
spoken-none :
    (w : World) (returned : Bool × Option QueryError)
    → returned ≢ (false, none)
    → spoken (w, returned) ≡ none
spoken-none w (files, error) ne = unspoken w.sent files error ne
  where
    unspoken :
        (sent : List Bytes) (f : Bool) (e : Option QueryError)
        → ◌≢◌ {A = Bool × Option QueryError} (f, e) (false, none)
        → answer_of sent f e ≡ none
    unspoken [] f e n = refl
    unspoken (a ∷ []) true e n = refl
    unspoken (a ∷ []) false none n = absurd (n refl)
    unspoken (a ∷ []) false (some x) n = refl
    unspoken (a ∷ b ∷ sent) f e n = refl

spoken-some :
    (w : World) (returned : Bool × Option QueryError) (answer : Bytes)
    → returned ≡ (false, none)
    → w.sent ≡ answer ∷ []
    → spoken (w, returned) ≡ some answer
spoken-some w returned answer r sent =
    ap (λ (p : Bool × Option QueryError). answer_of w.sent p.0 p.1) r
    ∙ ap (λ l. answer_of l false none) sent

-- What a query leaves in the store is what its transcript says.
pub Kept-run :
    (turn : Turn) (t : Table) (a : Agent) (tree : Tree) (recent : Bytes → ℕ → Result (List Message))
    (r : Returned)
    → a.recent ≡ some recent
    → Kept turn.services a
        (record { tree = tree; sent = []; history = [] })
        turn.content
        turn.workspace_dir
        r
    → store_turns turn t r.0.history ≡ run t (calls turn (spoken r))
unfolding store_turns run calls
Kept-run turn t a tree recent (w, (files, error)) e (inl (same, ne)) =
    ap (store_turns turn t) same
    ∙ ap (λ o. run t (calls turn o)) (sym (spoken-none w (files, error) ne))
Kept-run turn t a tree recent (w, returned) e (inr (answer, r, files, sent, stored)) =
    ap (store_turns turn t) (
      stored
      ∙ sym (persist-turns_of turn.services a.recent turn.workspace_dir turn.content answer []))
    ∙ ap
        (λ f.
          store_turns turn t (persist turn.services f turn.workspace_dir turn.content answer []))
        e
    ∙ store_turns-persist turn recent t answer
    ∙ ap (λ o. run t (calls turn o)) (sym (spoken-some w returned answer r sent))

-- Times.
IsTimed-weaken : (a b : ℕ) (xs : List Call) → a ≤ b → IsTimed b xs → IsTimed a xs
IsTimed-weaken a b [] h t = tt
IsTimed-weaken a b (c ∷ xs) h t = (omega arith, t.1)

pub IsTimed-calls :
    (turn : Turn) (o : Option Bytes) (last : ℕ) (xs : List Call)
    → last ≤ turn.asked_at
    → turn.asked_at ≤ turn.answered_at
    → IsTimed turn.answered_at xs
    → IsTimed last (calls turn o ++ xs)
unfolding calls
IsTimed-calls turn none last xs h k t = IsTimed-weaken last turn.answered_at xs (omega arith) t
IsTimed-calls turn (some answer) last xs h k t = (h, (k, t))

-- The transcript, from the calls of Append.
pub kept-call :
    (turn : Turn) (now : ℕ) (dir : Bytes) (m : Message)
    → is_role m.role ≡ true
    → map without_time (kept dir (call turn now m))
      ≡ (if bytes_eq turn.workspace_dir dir then accepted turn m else [])
unfolding kept without_time
kept-call turn now dir m role =
    elim (Option-cases (turn.services.append_error turn.workspace_dir m)) [
      | inl u ↦ elim (Bool-cases (bytes_eq turn.workspace_dir dir)) [
        | inl d ↦ rw (u, accepted, role, d) refl
        | inr d ↦ rw (u, accepted, role, d) refl
      ]
      | inr (e, u) ↦ elim (Bool-cases (bytes_eq turn.workspace_dir dir)) [
        | inl d ↦ rw (u, accepted, d) refl
        | inr d ↦ rw (u, accepted, d) refl
      ]
    ]

pub history-append :
    (dir : Bytes) (xs ys : List Call) → history dir (xs ++ ys) ≡ history dir xs ++ history dir ys
unfolding history
history-append dir [] ys = refl
history-append dir (c ∷ xs) ys =
    ap (λ r. kept dir c ++ r) (history-append dir xs ys)
    ∙ sym (append_assoc (kept dir c) (history dir xs) (history dir ys))
