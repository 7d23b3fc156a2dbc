-- ===== src/Agent/Query/History.antt =====
-- What a query leaves in the conversation store.
use tfai_go.Base.{
  ◌≢◌, ◌≡◌, refl, sym, ap, ◌∙◌, append-nil, append_assoc, ℕ, List, Option-cases, ◌⊎◌, inl, inr,
  false, Option, none, some, [], ◌∷◌, ◌++◌, Bytes, bytes_eq, Result, ok, err, ltb, length,
  Bool-cases,
}
use tfai_go.Disk.{Tree}
use tfai_go.Agent.Apply.{TerraformAgentOutput, ApplyError, apply_files}
use tfai_go.Agent.Messages.{Agent, user_message, assistant_message}
use tfai_go.Budget.{Message}
use tfai_go.Agent.Query.{
  Services, World, Returned, Gathered, whole, broken, append, persist, send_raw, applied,
  deliver_output, deliver, is_outside, answer_query, receive, streamed, after_stream, query,
}

-- The messages of a turn that the store takes, as its rows: none without a store, and otherwise the question and
-- the answer, but for those whose Append fails.
abbrev pub taken : Services → Bytes → Message → List (Bytes × Message)
taken s workspace_dir m = elim (s.append_error workspace_dir m) [
  | none ↦ (workspace_dir, m) ∷ []
  | some message ↦ []
]

abbrev pub turns_of :
    Services
    → Option (Bytes → ℕ → Result (List Message))
    → Bytes
    → Bytes
    → Bytes
    → List (Bytes × Message)
turns_of s none workspace_dir content answer = []
turns_of s (some recent) workspace_dir content answer =
    taken s workspace_dir (user_message content) ++ taken s workspace_dir (assistant_message answer)

append-taken :
    (s : Services) (workspace_dir : Bytes) (m : Message) (history : List (Bytes × Message))
    → append s workspace_dir m history ≡ history ++ taken s workspace_dir m
unfolding append
append-taken s workspace_dir m history = elim (Option-cases (s.append_error workspace_dir m)) [
  | inl e ↦ rw (e, append, taken) refl
  | inr (message, e) ↦ rw (e, append, taken) (sym (append-nil history))
]

pub persist-turns_of :
    (s : Services) (recent : Option (Bytes → ℕ → Result (List Message)))
    (workspace_dir content answer : Bytes) (history : List (Bytes × Message))
    → persist s recent workspace_dir content answer history
      ≡ history ++ turns_of s recent workspace_dir content answer
unfolding persist
persist-turns_of s none workspace_dir content answer history = sym (append-nil history)
persist-turns_of s (some recent) workspace_dir content answer history =
    let u = user_message content in
    let m = assistant_message answer in
    append-taken s workspace_dir m (append s workspace_dir u history)
    ∙ ap (λ h. h ++ taken s workspace_dir m) (append-taken s workspace_dir u history)
    ∙ append_assoc history (taken s workspace_dir u) (taken s workspace_dir m)

module _ (s : Services) (a : Agent) (w : World) (content workspace_dir : Bytes) where
  -- The store is as it was, and the query failed or wrote files; or no file was touched, one text was sent,
  -- and the turns of the user and of this text were added, as far as the store takes them.
  abbrev pub Kept : Returned → Type 0
  Kept (after, returned) =
      ((after.history ≡ w.history) × (returned ≢ (false, none)))
      ⊎ ((answer : Bytes) × (returned ≡ (false, none))
          × (after.tree ≡ w.tree)
          × (after.sent ≡ w.sent ++ answer ∷ [])
          × (after.history ≡ w.history ++ turns_of s a.recent workspace_dir content answer))

  send_raw-Kept :
      (answer : Bytes) (failed : Option Bytes)
      → Kept (send_raw s a w workspace_dir content answer failed)
  unfolding send_raw
  send_raw-Kept answer none =
      inr (
        answer,
        refl,
        refl,
        refl,
        persist-turns_of s a.recent workspace_dir content answer w.history,
      )
  send_raw-Kept answer (some message) = inl (refl, λ h. cc)

  applied-Kept : (summary : Bytes) (r : Tree × Option ApplyError) → Kept (applied s w summary r)
  unfolding applied
  applied-Kept summary (after, none) = inl (refl, λ h. cc)
  applied-Kept summary (after, some e) = inl (refl, λ h. cc)

  deliver_output-Kept :
      (answer : Bytes) (r : Result TerraformAgentOutput)
      → Kept (deliver_output s a w workspace_dir content answer r)
  unfolding deliver_output
  deliver_output-Kept answer (err message) = send_raw-Kept answer (s.write_error answer)
  deliver_output-Kept answer (ok output) = elim (Bool-cases (ltb 0 (length output.files))) [
    | inl e ↦ rw e (applied-Kept output.summary (apply_files s.os w.tree output workspace_dir))
    | inr e ↦ rw e (send_raw-Kept answer (s.write_error answer))
  ]

  deliver-Kept : (answer : Bytes) → Kept (deliver s a w workspace_dir content answer)
  unfolding deliver
  deliver-Kept answer = elim (Bool-cases (bytes_eq workspace_dir [])) [
    | inl e ↦ rw e (send_raw-Kept answer (s.write_error answer))
    | inr e ↦ rw e (deliver_output-Kept answer (s.parse_agent_output answer))
  ]

  answer_query-Kept :
      (root : Bytes) (g : Gathered) → Kept (answer_query s root a w content workspace_dir g)
  unfolding answer_query
  answer_query-Kept root (broken e) = inl (refl, λ h. cc)
  answer_query-Kept root (whole answer) = elim (Bool-cases (is_outside s root workspace_dir)) [
    | inl e ↦ rw e (inl (refl, λ h. cc))
    | inr e ↦ rw e (deliver-Kept answer)
  ]

-- A query either leaves the conversation store as it was, and then it returns an error or that it wrote files; or
-- it returns no error and that it wrote no files, has left the files as the stream of the ReAct agent left them,
-- has sent one text, and, if there is a store, has added the message of the user and then this text to it, except
-- those whose Append fails. So a query that wrote files leaves no turn behind.
pub query-Kept :
    (s : Services) (workspace_root : Bytes) (a : Agent) (w : World) (content workspace_dir : Bytes)
    → Kept s a
        (after_stream s a w content workspace_dir)
        content
        workspace_dir
        (query s workspace_root a w content workspace_dir)
unfolding query
query-Kept s workspace_root a w content workspace_dir =
    answer_query-Kept s a (after_stream s a w content workspace_dir) content workspace_dir
      workspace_root (receive (streamed s a w content workspace_dir).1)
