-- ===== src/Agent/Messages.antt =====
-- buildMessages, buildRAGContext and buildWorkspaceContext of internal/agent/agent.go: what the model is
-- given. A walk of a directory is the list of the entries in the order of filepath.WalkDir.
pub mod Layout
pub mod Limits
use tfai_go.Base.{
  ℕ, zero, suc, ◌+◌, ◌*◌, ◌/◌, ◌%◌, Bool, true, false, Option, none, some, List, [], ◌∷◌, ◌++◌,
  Bytes, codes, bytes_eq, has_suffix, length, ltb, leb, ◌==◌, Result, ok, err, not, ◌||◌,
  if◌then◌else◌,
}
use tfai_go.Budget.{Message, trim_history}
use tfai_go.Rag.{Document}

-- schema.SystemMessage, UserMessage, AssistantMessage
abbrev pub system_message : Bytes → Message
system_message content = record { role = codes "system"; content = content }

abbrev pub user_message : Bytes → Message
user_message content = record { role = codes "user"; content = content }

abbrev pub assistant_message : Bytes → Message
assistant_message content = record { role = codes "assistant"; content = content }

-- The switch on the role of each prior message: another role than the two is left out.
unfoldable pub history_messages : List Message → List Message
history_messages [] = []
history_messages (m ∷ prior) =
    let rest = history_messages prior in
    if bytes_eq m.role (codes "user")
    then user_message m.content ∷ rest
    else if bytes_eq m.role (codes "assistant")
    then assistant_message m.content ∷ rest
    else rest

-- The digits of a number, behind them what is already written; the fuel bounds their count.
pub digits : ℕ → ℕ → Bytes → Bytes
digits zero n written = written
digits (suc fuel) n written =
    let next = (48 + n % 10) ∷ written in if n / 10 == 0 then next else digits fuel (n / 10) next

-- %d of package fmt
pub decimal : ℕ → Bytes
unfolding digits
decimal n = digits (suc n) n []

pub rag_sources : ℕ → List Document → Bytes
unfolding decimal
rag_sources i [] = []
rag_sources i (doc ∷ docs) =
    codes "### Source "
    ++ decimal (i + 1)
    ++ codes ": "
    ++ doc.source
    ++ codes "\n"
    ++ doc.content
    ++ codes "\n\n"
    ++ rag_sources (i + 1) docs

-- buildRAGContext
pub build_rag_context : List Document → Bytes
unfolding rag_sources
build_rag_context docs =
    codes
      "## Relevant Terraform Documentation\n\nThe following documentation excerpts are relevant to the user's query. Use them to inform your response where applicable.\n\n"
    ++ rag_sources 0 docs

-- An entry of a walk as the callback of buildWorkspaceContext sees it.
pub record Entry : Type 0 where
  pub unreadable : Bool
  pub is_dir : Bool
  pub name : Bytes
  -- d.Info().Size(), filepath.Rel and os.ReadFile: none where the call fails
  pub size : Option ℕ
  pub relative : Option Bytes
  pub content : Option Bytes

abbrev pub max_workspace_files : ℕ
max_workspace_files = 50

abbrev pub max_workspace_file_bytes : ℕ
max_workspace_file_bytes = 100 * 1024

abbrev pub max_workspace_total_bytes : ℕ
max_workspace_total_bytes = 1024 * 1024

-- A file that the context takes up: its relative path and content.
pub record Included : Type 0 where
  pub relative : Bytes
  pub content : Bytes

-- What the callback answers: go on, stop the walk, or go on with a file taken up.
pub data Step : Type 0 where
  next stop : Step
  include : Included → Step

pub include_read : Option Bytes → Option Bytes → Step
include_read (some relative) (some content) =
    include (record { relative = relative; content = content })
include_read (some relative) none = next
include_read none content = next

pub step_sized : ℕ → Entry → Option ℕ → Step
unfolding include_read
step_sized total_bytes e none = next
step_sized total_bytes e (some size) =
    if ltb max_workspace_file_bytes size
    then next
    else if ltb max_workspace_total_bytes (total_bytes + size)
    then stop
    else include_read e.relative e.content

-- The callback, of the count and the bytes taken up so far.
pub step : ℕ → ℕ → Entry → Step
unfolding step_sized
step file_count total_bytes e =
    if e.unreadable
    then next
    else if e.is_dir || not (has_suffix e.name (codes ".tf"))
    then next
    else if leb max_workspace_files file_count
    then stop
    else step_sized total_bytes e e.size

pub walk_step : Step → (ℕ → ℕ → List Included) → ℕ → ℕ → List Included
walk_step next rest file_count total_bytes = rest file_count total_bytes
walk_step stop rest file_count total_bytes = []
walk_step (include f) rest file_count total_bytes =
    f ∷ rest (file_count + 1) (total_bytes + length f.content)

-- The walk: the files that are taken up.
pub included : ℕ → ℕ → List Entry → List Included
unfolding step walk_step
included file_count total_bytes [] = []
included file_count total_bytes (e ∷ entries) =
    walk_step (step file_count total_bytes e) (λ n b. included n b entries) file_count total_bytes

pub file_sections : List Included → Bytes
file_sections [] = []
file_sections (f ∷ files) =
    codes "### "
    ++ f.relative
    ++ codes "\n```hcl\n"
    ++ f.content
    ++ codes "\n```\n\n"
    ++ file_sections files

-- buildWorkspaceContext
pub build_workspace_context : List Entry → Bytes
unfolding included file_sections
build_workspace_context entries =
    let text = file_sections (included 0 0 entries) in
    if bytes_eq text []
    then []
    else codes
        "## Current Workspace Files\n\nThe following Terraform files are currently in the workspace. When the user asks to modify, update, or extend the configuration, use these as the base and return the full updated file contents in the JSON envelope.\n\n"
      ++ text

-- What TerraformAgent reaches: the conversation store and the retriever, if there are any, and the walk of
-- a directory; its limits, which New makes positive.
pub record Agent : Type 0 where
  pub system_prompt : Bytes
  pub recent : Option (Bytes → ℕ → Result (List Message))
  pub history_depth : ℕ
  pub retrieve : Option (Bytes → ℕ → Result (List Document))
  pub rag_top_k : ℕ
  pub walk : Bytes → List Entry
  pub max_context_tokens : ℕ

unfoldable pub messages_of : Result (List Message) → List Message
unfolding history_messages
messages_of (err message) = []
messages_of (ok prior) = history_messages prior

unfoldable pub prior_messages : Agent → Bytes → List Message
unfolding messages_of
prior_messages a workspace_dir = elim a.recent [
  | none ↦ []
  | some recent ↦ messages_of (recent workspace_dir (a.history_depth * 2))
]

pub rag_message : Result (List Document) → List Message
unfolding build_rag_context
rag_message (err message) = []
rag_message (ok []) = []
rag_message (ok (doc ∷ docs)) = system_message (build_rag_context (doc ∷ docs)) ∷ []

pub workspace_message : Bytes → List Message
workspace_message context = if bytes_eq context [] then [] else system_message context ∷ []

-- The messages between the history and the user's: the documentation, and the workspace.
pub context_messages : Agent → Bytes → Bytes → List Message
unfolding rag_message workspace_message build_workspace_context
context_messages a user_message workspace_dir =
    elim a.retrieve [ none ↦ [] | some retrieve ↦ rag_message (retrieve user_message a.rag_top_k) ]
    ++ (if not (bytes_eq workspace_dir [])
        then workspace_message (build_workspace_context (a.walk workspace_dir))
        else [])

-- buildMessages
pub build_messages : Agent → Bytes → Bytes → List Message
unfolding context_messages prior_messages
build_messages a content workspace_dir =
    let fixed =
      system_message a.system_prompt
      ∷ (context_messages a content workspace_dir ++ user_message content ∷ []) in
    let history = trim_history fixed (prior_messages a workspace_dir) a.max_context_tokens in
    system_message a.system_prompt
    ∷ (history ++ (context_messages a content workspace_dir ++ user_message content ∷ []))
