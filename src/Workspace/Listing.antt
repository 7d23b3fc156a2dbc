-- ===== src/Workspace/Listing.antt =====
-- handleWorkspace of internal/server/workspace.go: the Terraform files of a directory and its flags. What
-- filepath.WalkDir visits is a tree of entries in the order of their names; an entry that it reports an
-- error for is passed over by the callback, and is no entry here.
pub mod Visible
mod Tests
use tfai_go.Base.{
  ℕ, Bool, true, false, Option, none, some, List, [], ◌∷◌, ◌++◌, Bytes, codes, bytes_eq, has_prefix,
  Result, ok, err, ◌||◌, if◌then◌else◌,
}
use tfai_go.Disk.{Tree, Node, missing, directory, file}
use tfai_go.Path.{separator, ext}
use tfai_go.Workspace.{resolve_abs_dir, confine_rest}

mutual
  -- An entry by its name: a file, or a directory with its entries.
  pub data Dirent : Type 0 where
    plain : Bytes → Dirent
    nested : Bytes → Dirents → Dirent

  pub data Dirents : Type 0 where
    nil : Dirents
    cons : Dirent → Dirents → Dirents

pub name_of : Dirent → Bytes
name_of (plain name) = name
name_of (nested name entries) = name

-- workspaceResponse, without the directory, and without `dirs`, which is always empty
pub record WorkspaceResponse : Type 0 where
  pub files : List Bytes
  pub initialized : Bool
  pub has_state : Bool
  pub has_lockfile : Bool

-- The extension of a Terraform file.
pub is_terraform : Bytes → Bool
is_terraform name = bytes_eq (ext name) (codes ".tf") || bytes_eq (ext name) (codes ".tfvars")

-- filepath.Rel of an entry, of that of its directory; the root itself is `.`
pub relative : Bytes → Bytes → Bytes
relative parent name = if bytes_eq parent (codes ".") then name else parent ++ separator ∷ name

-- The callback on a file.
pub visit_file : Bytes → Bytes → WorkspaceResponse → WorkspaceResponse
unfolding is_terraform
visit_file rel name resp = record {
  files = if is_terraform name then resp.files ++ rel ∷ [] else resp.files;
  initialized = resp.initialized;
  has_state = resp.has_state || bytes_eq name (codes "terraform.tfstate");
  has_lockfile = resp.has_lockfile || bytes_eq name (codes ".terraform.lock.hcl");
}

-- The callback on a directory that is passed over.
pub skip_directory : Bytes → WorkspaceResponse → WorkspaceResponse
skip_directory name resp = record resp {
  initialized = resp.initialized || bytes_eq name (codes ".terraform");
}

pub is_hidden : Bytes → Bool
is_hidden name = has_prefix name (codes ".")

-- The walk, of the relative path of the entry.
mutual
  pub visit : Bytes → Dirent → WorkspaceResponse → WorkspaceResponse
  visit rel (plain name) resp = visit_file rel name resp
  visit rel (nested name entries) resp =
      let inner = visit_all rel entries resp in
      if is_hidden name then skip_directory name resp else inner

  pub visit_all : Bytes → Dirents → WorkspaceResponse → WorkspaceResponse
  visit_all rel nil resp = resp
  visit_all rel (cons e entries) resp =
      visit_all rel entries (visit (relative rel (name_of e)) e resp)

abbrev pub no_response : WorkspaceResponse
no_response = record { files = []; initialized = false; has_state = false; has_lockfile = false }

pub data WorkspaceAnswer : Type 0 where
  listed : Bytes → WorkspaceResponse → WorkspaceAnswer
  failed : Bytes → ℕ → WorkspaceAnswer

-- The walk of the directory: none where WalkDir cannot reach its root.
pub walked : Option Dirent → WorkspaceResponse
unfolding visit
walked none = no_response
walked (some root) = visit (codes ".") root no_response

pub list_node : (Bytes → Option Dirent) → Bytes → Node → WorkspaceAnswer
unfolding walked
list_node walk dir missing = failed (codes "directory not found") 404
list_node walk dir directory = listed dir (walked (walk dir))
list_node walk dir (file content) = listed dir (walked (walk dir))

pub list_confined : (Bytes → Option Dirent) → Tree → Result Bytes → WorkspaceAnswer
unfolding list_node
list_confined walk tree (err message) = failed message 400
list_confined walk tree (ok dir) = list_node walk dir (tree dir)

-- handleWorkspace, of the query parameter `dir`
pub handle_workspace : (Bytes → Option Dirent) → Bytes → Tree → Bytes → WorkspaceAnswer
unfolding list_confined
handle_workspace walk workspace_root tree raw =
    list_confined walk tree (confine_rest workspace_root (resolve_abs_dir raw))
