-- ===== src/Workspace/Scaffold/Tests.antt =====
-- A run of the scaffold at a concrete input.
use tfai_go.Base.{◌≡◌, refl, none, [], codes, ok}
use tfai_go.Disk.{Tree, Os, directory}
use tfai_go.Workspace.Scaffold.{CreateWorkspaceRequest, handle_workspace_create}
use tfai_go.Workspace.Scaffold.Written.{IsCreated, handle_workspace_create-ok}

abbrev os : Os
os = record {
  write_error = λ tree path. none;
  mkdir_error = λ tree path. none;
  read_error = λ tree path. none;
  stat_error = λ tree path. none;
}

abbrev tree : Tree
tree path = directory

abbrev body : CreateWorkspaceRequest
body = record { dir = codes "/w/a/"; description = codes "a bucket" }

handle_workspace_create-ok_example :
    IsCreated (codes "/w") tree body (handle_workspace_create os (codes "/w") tree (ok body))
unfolding handle_workspace_create tfai_go.Workspace.confine_rest tfai_go.Workspace.resolve_abs_dir
    tfai_go.Path.clean tfai_go.Path.render tfai_go.Path.elements tfai_go.Path.push_element
    tfai_go.Path.up tfai_go.Path.join_elements tfai_go.Path.is_abs tfai_go.Base.bytes_eq
    tfai_go.Workspace.confine_to_root tfai_go.Workspace.confine_to_dir tfai_go.Base.has_prefix
    tfai_go.Base.split tfai_go.Disk.write_file
handle_workspace_create-ok_example = handle_workspace_create-ok os (codes "/w") tree body refl
