-- ===== src/Agent/Tests.antt =====
-- Runs of the agent at concrete inputs.
use tfai_go.Base.{
  ◌≡◌, ◌≢◌, ◌⊎◌, ◌≤◌, refl, ℕ, true, false, none, some, Option, List, [], ◌∷◌, ◌++◌, Bytes, codes,
  has_prefix, Result, ok, err, pos, ℤ, length, All,
}
use tfai_go.Agent.Query.{Config}
use tfai_go.Agent.Session.{Turn}
use tfai_go.Path.{clean}
use tfai_go.Path.Prefix.{Within, Within-refused}
use tfai_go.Disk.{Tree, Os, missing, put_file}
use tfai_go.Budget.{Message, estimate_messages}
use tfai_go.Agent.Apply.{TerraformAgentOutput, apply_files}
use tfai_go.Disk.Same.{SameFile}
use tfai_go.Agent.Apply.Confined.{apply_files-SameFile}
use tfai_go.Agent.Messages.{
  Agent, Entry, system_message, user_message, prior_messages, context_messages, build_messages,
}
use tfai_go.Agent.Messages.Layout.{build_messages_layout}
use tfai_go.Agent.Query.{Services, World, new_agent, after_stream, query}
use tfai_go.Agent.Query.Confined.{query-SameFile}
use tfai_go.Agent.Query.History.{Kept, query-Kept}

abbrev os : Os
os = record {
  write_error = λ tree path. none;
  mkdir_error = λ tree path. none;
  read_error = λ tree path. none;
  stat_error = λ tree path. none;
}

abbrev tree : Tree
tree path = missing

abbrev output : TerraformAgentOutput
output = record {
  files = record { path = codes "../e/m.tf"; content = codes "x" } ∷ [];
  summary = codes "done";
}

abbrev root : Bytes
root = codes "/w"

abbrev outer : Bytes
outer = codes "/e/m.tf"

outer-outside : ¬ Within (clean root) outer
unfolding tfai_go.Path.clean tfai_go.Path.render tfai_go.Path.elements tfai_go.Path.push_element
    tfai_go.Path.up tfai_go.Path.join_elements tfai_go.Path.is_abs has_prefix tfai_go.Base.split
    tfai_go.Base.bytes_eq
outer-outside = Within-refused outer (clean root) refl

apply_files-SameFile_example : SameFile (apply_files os tree output root).0 tree outer
apply_files-SameFile_example = apply_files-SameFile os tree output root outer outer-outside

abbrev turn : Message
turn = record { role = codes "user"; content = codes "a bucket" }

abbrev main_tf : Entry
main_tf = record {
  unreadable = false;
  is_dir = false;
  name = codes "main.tf";
  size = some 1;
  relative = some (codes "main.tf");
  content = some (codes "x");
}

abbrev agent : Agent
agent =
    new_agent (codes "prompt") (λ dir. main_tf ∷ [])
      (record {
        recent = some (λ dir n. ok (turn ∷ []));
        history_depth = pos 0;
        retrieve = none;
        rag_top_k = pos 0;
        max_context_tokens = pos 100;
      })

abbrev services : Services
services = record {
  os = os;
  parse_agent_output = λ text. ok output;
  stream = λ t msgs. (put_file t (codes "/w/plan") [], ok (ok (codes "{}") ∷ []));
  write_error = λ text. none;
  append_error = λ dir m. none;
}

abbrev world : World
world = record { tree = tree; sent = []; history = [] }

abbrev dir : Bytes
dir = codes "/w/a"

query-SameFile_example :
    SameFile
      (query services root agent world (codes "hi") dir).0.tree
      (services.stream tree (build_messages agent (codes "hi") dir)).0
      outer
query-SameFile_example =
    query-SameFile services root agent world (codes "hi") dir outer (λ h. cc) outer-outside

query-Kept_example :
    Kept services agent
      (after_stream services agent world (codes "hi") dir)
      (codes "hi")
      dir
      (query services root agent world (codes "hi") dir)
query-Kept_example = query-Kept services root agent world (codes "hi") dir

build_messages_layout_example :
    (old kept : List Message) × (old ++ kept ≡ prior_messages agent dir)
    × (build_messages agent (codes "hi") dir
        ≡ system_message agent.system_prompt
          ∷ (kept ++ (context_messages agent (codes "hi") dir ++ user_message (codes "hi") ∷ [])))
    × ((kept ≡ [])
        ⊎ (estimate_messages (build_messages agent (codes "hi") dir) ≤ agent.max_context_tokens))
build_messages_layout_example = build_messages_layout agent (codes "hi") dir

-- A session about two directories, with no model that writes files.
abbrev question : Bytes → Bytes → Turn
question content workspace_dir = record {
  services = record services {
    parse_agent_output = λ text. err (codes "no envelope");
    stream = λ t msgs. (t, ok (ok (codes "a bucket") ∷ []));
  };
  content = content;
  workspace_dir = workspace_dir;
  recent_failed = none;
  asked_at = 5;
  answered_at = 5;
}

abbrev session : List Turn
session = question (codes "one") dir ∷ question (codes "two") (codes "/w/b") ∷ []

abbrev config : Config
config = record {
  recent = none;
  history_depth = pos 0;
  retrieve = none;
  rag_top_k = pos 0;
  max_context_tokens = pos 0;
}
