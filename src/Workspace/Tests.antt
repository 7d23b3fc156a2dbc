-- ===== src/Workspace/Tests.antt =====
-- Runs of the file API at concrete inputs.
use tfai_go.Base.{◌≡◌, ◌≢◌, refl, ◌⊎◌, ◌↔◌, none, List, [], Bytes, codes, Result, ok, All, split}
use tfai_go.Path.{separator, dotdot, is_abs, clean}
use tfai_go.Path.Prefix.{Within}
use tfai_go.Disk.{Tree, Os, file}
use tfai_go.Workspace.{
  confine_to_root, confine_rest, FileSaveRequest, confine_to_dir, confine_twice, handle_file_save,
  handle_file_read, read_confined, read_node,
}
use tfai_go.Workspace.Confine.{confine_twice_iff}
use tfai_go.Workspace.Save.{
  IsRefused, IsFailed, IsSaved, handle_file_save-cases, handle_file_read_confined,
}

-- A system in which no call fails, and a tree with one file.
abbrev os : Os
os = record {
  write_error = λ tree path. none;
  mkdir_error = λ tree path. none;
  read_error = λ tree path. none;
  stat_error = λ tree path. none;
}

abbrev tree : Tree
tree path = file (codes "x")

abbrev root : Bytes
root = codes "/w"

abbrev dir : Bytes
dir = codes "/w/a"

abbrev target : Bytes
target = codes "/w/a/../a/m.tf"

abbrev cleaned : Bytes
cleaned = codes "/w/a/m.tf"

abbrev body : FileSaveRequest
body = record { workspace_dir = dir; path = target; content = codes "y" }

confine_twice_iff_example : (confine_twice root dir target ≡ ok cleaned) ↔ (
    (cleaned ≡ clean target)
    × Within (clean dir) cleaned
    × (root ≢ [] → Within (clean root) cleaned))
confine_twice_iff_example = confine_twice_iff root dir target cleaned

handle_file_save-cases_example :
    IsRefused tree (handle_file_save os root tree (ok body))
    ⊎ ((IsFailed tree (clean target) (handle_file_save os root tree (ok body))
          ⊎ IsSaved tree (clean target) (codes "y") (handle_file_save os root tree (ok body)))
        × Within (clean dir) (clean target)
        × (root ≢ [] → Within (clean root) (clean target)))
handle_file_save-cases_example = handle_file_save-cases os root tree body

handle_file_read_confined_example :
    (cleaned ≡ clean target)
    × (tree cleaned ≡ file (codes "x"))
    × Within (clean dir) cleaned
    × (root ≢ [] → Within (clean root) cleaned)
unfolding handle_file_read read_confined read_node confine_twice confine_rest confine_to_dir
    confine_to_root tfai_go.Path.clean tfai_go.Path.render tfai_go.Path.elements
    tfai_go.Path.push_element tfai_go.Path.up tfai_go.Path.join_elements tfai_go.Path.is_abs
    tfai_go.Base.bytes_eq tfai_go.Base.has_prefix split
handle_file_read_confined_example =
    handle_file_read_confined os root tree target dir cleaned (codes "x") refl
