-- ===== src/Workspace/Listing/Tests.antt =====
-- A run of the listing at a concrete input.
use tfai_go.Base.{◌≡◌, ◌≢◌, ◌↔◌, refl, Bool, true, false, Option, some, List, [], ◌∷◌, Bytes, codes}
use tfai_go.Disk.{Tree, missing, directory}
use tfai_go.Path.{clean, is_abs}
use tfai_go.Path.Prefix.{Within}
use tfai_go.Workspace.Listing.{
  Dirent, Dirents, plain, nested, nil, cons, WorkspaceResponse, listed, handle_workspace,
  list_confined, list_node, walked, visit, is_hidden, visit_file, skip_directory, is_terraform,
  relative,
}
use tfai_go.Workspace.Listing.Visible.{IsAmong, IsVisible, handle_workspace-listed}

abbrev root : Dirent
root = nested (codes "a") (
    cons (nested (codes ".terraform") (cons (plain (codes "h.tf")) nil))
      (cons (plain (codes "m.tf")) nil))

abbrev tree : Tree
tree path = directory

abbrev resp : WorkspaceResponse
resp = record {
  files = codes "m.tf" ∷ [];
  initialized = true;
  has_state = false;
  has_lockfile = false;
}

handle_workspace-listed_example :
    (codes "/w/a" ≡ clean (codes "/w/a/"))
    × (is_abs (codes "/w/a") ≡ true)
    × (codes "/w" ≢ [] → Within (clean (codes "/w")) (codes "/w/a"))
    × (tree (codes "/w/a") ≢ missing)
    × ((path : Bytes) → IsAmong path resp.files ↔ IsVisible (codes ".") root path)
unfolding handle_workspace list_confined list_node walked visit is_hidden visit_file skip_directory
    is_terraform relative tfai_go.Path.ext tfai_go.Workspace.confine_rest
    tfai_go.Workspace.resolve_abs_dir tfai_go.Path.clean tfai_go.Path.render tfai_go.Path.elements
    tfai_go.Path.push_element tfai_go.Path.up tfai_go.Path.join_elements tfai_go.Path.is_abs
    tfai_go.Base.bytes_eq tfai_go.Workspace.confine_to_root tfai_go.Workspace.confine_to_dir
    tfai_go.Base.has_prefix tfai_go.Base.split tfai_go.Workspace.Listing.name_of
handle_workspace-listed_example =
    handle_workspace-listed (λ dir. some root) (codes "/w") tree (codes "/w/a/") (codes "/w/a") resp
      root refl refl
