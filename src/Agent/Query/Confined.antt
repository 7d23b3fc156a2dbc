-- ===== src/Agent/Query/Confined.antt =====
-- A query touches no file outside the root of the agent.
use tfai_go.Base.{
  ◌≡◌, ◌≢◌, refl, inl, inr, false, Option, none, some, [], ◌∷◌, ◌++◌, append_assoc, Bytes, bytes_eq,
  bytes_eq_sound, has_prefix, Result, ok, err, ltb, length, Bool-cases,
}
use tfai_go.Path.{separator, clean}
use tfai_go.Path.Prefix.{Within, has_prefix-Within}
use tfai_go.Disk.{Tree}
use tfai_go.Agent.Apply.{TerraformAgentOutput, ApplyError}
use tfai_go.Disk.Same.{SameFile, SameFile-refl}
use tfai_go.Agent.Apply.Confined.{apply_files-SameFile}
use tfai_go.Agent.Messages.{Agent, build_messages}
use tfai_go.Agent.Query.{
  Services, World, Gathered, whole, broken, send_raw, applied, deliver_output, deliver, is_outside,
  answer_query, receive, streamed, after_stream, query,
}

Within-trans : (a b c : Bytes) → Within a b → Within b c → Within a c
Within-trans a b c h (inl e) = rw e h
Within-trans a b c (inl e) (inr (rest, k)) = inr (rest, rw (← e) k)
Within-trans a b c (inr (rest, e)) (inr (rest', k)) =
    inr (rest ++ separator ∷ rest', rw (k, e) (simp append_assoc))

module _ (s : Services) (a : Agent) (w : World) (other : Bytes) where
  send_raw-tree :
      (dir content answer : Bytes) (failed : Option Bytes)
      → (send_raw s a w dir content answer failed).0.tree ≡ w.tree
  unfolding send_raw
  send_raw-tree dir content answer none = refl
  send_raw-tree dir content answer (some message) = refl

  send_raw-SameFile :
      (dir content answer : Bytes) (failed : Option Bytes)
      → SameFile (send_raw s a w dir content answer failed).0.tree w.tree other
  send_raw-SameFile dir content answer failed = rw send_raw-tree (SameFile-refl w.tree other)

  applied-tree :
      (summary : Bytes) (r : Tree × Option ApplyError) → (applied s w summary r).0.tree ≡ r.0
  unfolding applied
  applied-tree summary (after, none) = refl
  applied-tree summary (after, some e) = refl

  module _ (dir content answer : Bytes) (away : ¬ Within (clean dir) other) where
    deliver_output-SameFile :
        (r : Result TerraformAgentOutput)
        → SameFile (deliver_output s a w dir content answer r).0.tree w.tree other
    unfolding deliver_output
    deliver_output-SameFile (err message) =
        send_raw-SameFile dir content answer (s.write_error answer)
    deliver_output-SameFile (ok output) = elim (Bool-cases (ltb 0 (length output.files))) [
      | inl e ↦ rw (e, applied-tree) (apply_files-SameFile s.os w.tree output dir other away)
      | inr e ↦ rw e (send_raw-SameFile dir content answer (s.write_error answer))
    ]

    deliver-SameFile : SameFile (deliver s a w dir content answer).0.tree w.tree other
    unfolding deliver
    deliver-SameFile = elim (Bool-cases (bytes_eq dir [])) [
      | inl e ↦ rw e (send_raw-SameFile dir content answer (s.write_error answer))
      | inr e ↦ rw e (deliver_output-SameFile (s.parse_agent_output answer))
    ]

-- A directory that passes the check is inside the root.
is_outside-Within :
    (s : Services) (root dir : Bytes)
    → root ≢ []
    → is_outside s root dir ≡ false
    → Within (clean root) (clean dir)
unfolding is_outside
is_outside-Within s root dir ne h = elim (Bool-cases (bytes_eq root [])) [
  | inl e ↦ absurd (ne (bytes_eq_sound root [] e))
  | inr e ↦
      elim (Bool-cases (has_prefix (clean dir ++ separator ∷ []) (clean root ++ separator ∷ []))) [
        | inl k ↦ has_prefix-Within (clean dir) (clean root) k
        | inr k ↦ cc (rw (e, k) at h)
      ]
]

answer_query-SameFile :
    (s : Services) (root : Bytes) (a : Agent) (w : World) (content dir other : Bytes) (g : Gathered)
    → root ≢ []
    → ¬ Within (clean root) other
    → SameFile (answer_query s root a w content dir g).0.tree w.tree other
unfolding answer_query
answer_query-SameFile s root a w content dir other (broken e) ne away = SameFile-refl w.tree other
answer_query-SameFile s root a w content dir other (whole answer) ne away =
    elim (Bool-cases (is_outside s root dir)) [
      | inl e ↦ rw e (SameFile-refl w.tree other)
      | inr e ↦ rw e (
          deliver-SameFile s a w other dir content answer (λ h.
            away
              (Within-trans (clean root) (clean dir) other (is_outside-Within s root dir ne e) h)))
    ]

-- Where a workspace root is configured, a query itself neither makes, changes nor removes a file outside it,
-- whatever directory the request names, whatever the model answers, and wherever the query fails: a file outside
-- is as the stream of the ReAct agent leaves it. What the tools that the model runs in the stream do, before the
-- check of the directory, is not bounded.
pub query-SameFile :
    (s : Services) (workspace_root : Bytes) (a : Agent) (w : World)
    (content workspace_dir other : Bytes)
    → workspace_root ≢ []
    → ¬ Within (clean workspace_root) other
    → SameFile
        (query s workspace_root a w content workspace_dir).0.tree
        (s.stream w.tree (build_messages a content workspace_dir)).0
        other
unfolding query
query-SameFile s workspace_root a w content workspace_dir other ne away =
    answer_query-SameFile s workspace_root a (after_stream s a w content workspace_dir) content
      workspace_dir other (receive (streamed s a w content workspace_dir).1) ne away
