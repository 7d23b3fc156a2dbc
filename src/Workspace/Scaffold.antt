-- ===== src/Workspace/Scaffold.antt =====
-- handleWorkspaceCreate of internal/server/workspace.go: the scaffold of a new workspace.
pub mod Written
pub mod Confined
mod Tests
use tfai_go.Base.{
  ℕ, Bool, true, false, Option, none, some, List, [], ◌∷◌, ◌++◌, Bytes, codes, bytes_eq, Result, ok,
  err, if◌then◌else◌,
}
use tfai_go.Path.{join}
use tfai_go.Disk.{Tree, Node, missing, directory, file, Os, write_file}
use tfai_go.Workspace.{
  Response, Body, created_body, json_error, resolve_abs_dir, confine_to_root, confine_rest,
}

-- createWorkspaceRequest
pub record CreateWorkspaceRequest : Type 0 where
  pub dir : Bytes
  pub description : Bytes

-- scaffoldFile
pub record ScaffoldFile : Type 0 where
  pub name : Bytes
  pub content : Bytes

-- scaffoldFiles
pub scaffold_files : List ScaffoldFile
scaffold_files =
    record { name = codes "main.tf"; content = codes "# Add your resources here\n" }
    ∷ record { name = codes "variables.tf"; content = codes "# Define input variables here\n" }
    ∷ record { name = codes "outputs.tf"; content = codes "# Define outputs here\n" }
    ∷ record {
      name = codes "versions.tf";
      content = codes "terraform {\n  required_version = \">= 1.5\"\n}\n";
    }
    ∷ []

pub prompt_of : Bytes → Bytes
prompt_of description =
    if bytes_eq description []
    then []
    else codes "Create a Terraform workspace for: " ++ description

pub next_file : Bytes → Tree × Result (Unit {0}) → (Tree → Tree × Response) → Tree × Response
unfolding json_error
next_file name (tree, ok _) rest = rest tree
next_file name (tree, err message) rest =
    (tree, json_error (codes "failed to create " ++ name ++ codes ": " ++ message) 500)

-- The loop over the scaffold, of the names written so far.
pub write_scaffold : Os → Bytes → Bytes → Tree → List Bytes → List ScaffoldFile → Tree × Response
unfolding next_file
write_scaffold os dir prompt tree names [] =
    (tree, record { status = 200; body = created_body dir names prompt })
write_scaffold os dir prompt tree names (f ∷ files) =
    next_file f.name (write_file os tree (join dir f.name) f.content)
      (λ after. write_scaffold os dir prompt after (names ++ f.name ∷ []) files)

-- os.Stat, and the answer where the path is not a directory
pub in_directory : Os → Tree → Bytes → Bytes → Option Bytes → Node → Tree × Response
unfolding write_scaffold prompt_of json_error scaffold_files
in_directory os tree dir description (some message) node =
    (tree, json_error (codes "failed to access directory: " ++ message) 500)
in_directory os tree dir description none missing =
    (tree, json_error (codes "directory does not exist — create it first, then scaffold") 400)
in_directory os tree dir description none (file content) =
    (tree, json_error (codes "path exists but is not a directory") 400)
in_directory os tree dir description none directory =
    write_scaffold os dir (prompt_of description) tree [] scaffold_files

pub create_confined : Os → Tree → Bytes → Result Bytes → Tree × Response
unfolding in_directory json_error
create_confined os tree description (err message) = (tree, json_error message 400)
create_confined os tree description (ok dir) =
    in_directory os tree dir description (os.stat_error tree dir) (tree dir)

-- handleWorkspaceCreate
pub handle_workspace_create : Os → Bytes → Tree → Result CreateWorkspaceRequest → Tree × Response
unfolding create_confined json_error
handle_workspace_create os workspace_root tree (err message) =
    (tree, json_error (codes "invalid request body: " ++ message) 400)
handle_workspace_create os workspace_root tree (ok body) =
    create_confined os tree body.description
      (confine_rest workspace_root (resolve_abs_dir body.dir))
