-- ===== src/Workspace.antt =====
-- internal/server/workspace.go: the confinement of a path and the handlers of the file API.
-- A request body is what the JSON decoder gives behind its size limit: an error message, or the value.
pub mod Confine
pub mod Save
pub mod Scaffold
pub mod Listing
mod Tests
use tfai_go.Base.{
  Result, ok, err, ℕ, Bool, true, false, Option, none, some, List, [], ◌∷◌, ◌++◌, Bytes, codes,
  bytes_eq, has_prefix, not, ◌&&◌, if◌then◌else◌,
}
use tfai_go.Disk.{Node, missing, directory, file, Tree, Os, put_file, written, write_file}
use tfai_go.Path.{separator, is_abs, clean, join}

-- resolveAbsDir
pub resolve_abs_dir : Bytes → Result Bytes
resolve_abs_dir raw =
    if bytes_eq raw []
    then err (codes "dir is required")
    else let dir = clean raw in
      if not (is_abs dir) then err (codes "dir must be an absolute path") else ok dir

-- ConfineToDir
pub confine_to_dir : Bytes → Bytes → Result Bytes
confine_to_dir root target =
    if not (has_prefix (clean target ++ separator ∷ []) (clean root ++ separator ∷ []))
    then err (codes "path is outside the workspace directory")
    else ok (clean target)

-- The second confinement of each handler: only if a workspace root is configured.
pub confine_to_root : Bytes → Bytes → Result Bytes
confine_to_root workspace_root path =
    if not (bytes_eq workspace_root []) then confine_to_dir workspace_root path else ok path

pub data Body : Type 0 where
  -- {"error": …} of writeJSONError
  error_body : Bytes → Body
  file_body : Bytes → Bytes → Body
  saved_body : Body
  created_body : Bytes → List Bytes → Bytes → Body

pub record Response : Type 0 where
  pub status : ℕ
  pub body : Body

-- writeJSONError
pub json_error : Bytes → ℕ → Response
json_error message status = record { status = status; body = error_body message }

pub record FileSaveRequest : Type 0 where
  pub workspace_dir : Bytes
  pub path : Bytes
  pub content : Bytes

pub saved : Tree × Result (Unit {0}) → Tree × Response
unfolding json_error
saved (tree, ok _) = (tree, record { status = 200; body = saved_body })
saved (tree, err message) = (tree, json_error (codes "failed to save file: " ++ message) 500)

pub save_confined : Os → Tree → Bytes → Result Bytes → Tree × Response
unfolding saved json_error write_file
save_confined os tree content (err message) = (tree, json_error message 403)
save_confined os tree content (ok path) = saved (write_file os tree path content)

-- The two confinements, one after the other, as the handlers of the file API make them.
pub confine_rest : Bytes → Result Bytes → Result Bytes
confine_rest workspace_root (err message) = err message
confine_rest workspace_root (ok inside) = confine_to_root workspace_root inside

pub confine_twice : Bytes → Bytes → Bytes → Result Bytes
unfolding confine_rest
confine_twice workspace_root workspace_dir path =
    confine_rest workspace_root (confine_to_dir workspace_dir path)

-- handleFileSave
pub handle_file_save : Os → Bytes → Tree → Result FileSaveRequest → Tree × Response
unfolding json_error
handle_file_save os workspace_root tree (err message) =
    (tree, json_error (codes "invalid request body: " ++ message) 400)
handle_file_save os workspace_root tree (ok body) =
    if bytes_eq body.path []
    then (tree, json_error (codes "path is required") 400)
    else if bytes_eq body.workspace_dir []
    then (tree, json_error (codes "workspaceDir is required") 400)
    else save_confined os tree body.content
        (confine_twice workspace_root body.workspace_dir body.path)

pub read_node : Os → Tree → Bytes → Response
unfolding json_error
read_node os tree path = elim (tree path) [
  | missing ↦ json_error (codes "file not found") 404
  | directory ↦ json_error (codes "failed to read file") 500
  | file content ↦ elim (os.read_error tree path) [
    | none ↦ record { status = 200; body = file_body path content }
    | some message ↦ json_error (codes "failed to read file") 500
  ]
]

pub read_confined : Os → Tree → Result Bytes → Response
unfolding json_error read_node
read_confined os tree (err message) = json_error message 403
read_confined os tree (ok path) = read_node os tree path

-- handleFileRead, of the query parameters `path` and `workspaceDir`
pub handle_file_read : Os → Bytes → Tree → Bytes → Bytes → Response
unfolding json_error
handle_file_read os workspace_root tree raw_path raw_root =
    if bytes_eq raw_path []
    then json_error (codes "path is required") 400
    else if bytes_eq raw_root []
    then json_error (codes "workspaceDir is required") 400
    else read_confined os tree (confine_twice workspace_root raw_root raw_path)
