-- ===== src/Agent/Apply.antt =====
-- applyFiles of internal/agent/apply.go: the generated files, written below the workspace.
pub mod Confined
pub mod Written
use tfai_go.Base.{
  ℕ, Bool, Option, none, some, List, [], ◌∷◌, ◌++◌, Bytes, codes, bytes_eq, has_prefix, trim_prefix,
  Result, ok, err, not, ◌||◌, if◌then◌else◌,
}
use tfai_go.Path.{separator, clean, join, dir}
use tfai_go.Disk.{Tree, Os, write_file, mkdir_all}

-- GeneratedFile
pub record GeneratedFile : Type 0 where
  pub path : Bytes
  pub content : Bytes

-- TerraformAgentOutput
pub record TerraformAgentOutput : Type 0 where
  pub files : List GeneratedFile
  pub summary : Bytes

-- The path of a file without the root that the model may have put in front of it.
pub relative_path : Bytes → Bytes → Bytes
relative_path root path = trim_prefix (trim_prefix (clean path) root) (separator ∷ [])

-- A file is passed over, refused, or meant for a path.
pub data Target : Type 0 where
  skip : Target
  outside : Bytes → Target
  inside : Bytes → Target

pub target : Bytes → Bytes → Target
unfolding relative_path
target root path =
    let relative = relative_path root path in
    let file_path = join root relative in
    if bytes_eq relative [] || bytes_eq relative (codes ".")
    then skip
    else if not (has_prefix (file_path ++ separator ∷ []) (root ++ separator ∷ []))
    then outside file_path
    else inside file_path

-- Why the loop stopped.
pub data ApplyError : Type 0 where
  outside_workspace : Bytes → ApplyError
  mkdir_failed write_failed : Bytes → Bytes → ApplyError

pub after_write : Bytes → Tree × Result (Unit {0}) → Tree × Option ApplyError
after_write path (tree, ok _) = (tree, none)
after_write path (tree, err message) = (tree, some (write_failed path message))

pub after_mkdir : Os → Bytes → Bytes → Tree × Result (Unit {0}) → Tree × Option ApplyError
unfolding after_write
after_mkdir os path content (tree, ok _) = after_write path (write_file os tree path content)
after_mkdir os path content (tree, err message) = (tree, some (mkdir_failed path message))

-- One round of the loop: the directories and the file, or the error.
pub apply_target : Os → Tree → Bytes → Target → Tree × Option ApplyError
unfolding after_mkdir
apply_target os tree content skip = (tree, none)
apply_target os tree content (outside path) = (tree, some (outside_workspace path))
apply_target os tree content (inside path) =
    after_mkdir os path content (mkdir_all os tree (dir path))

-- The next round, unless this one returned an error.
pub then_next :
    Tree × Option ApplyError → (Tree → Tree × Option ApplyError) → Tree × Option ApplyError
then_next (after, none) next = next after
then_next (after, some e) next = (after, some e)

pub apply_from : Os → Bytes → Tree → List GeneratedFile → Tree × Option ApplyError
unfolding apply_target then_next
apply_from os root tree [] = (tree, none)
apply_from os root tree (f ∷ files) =
    then_next (apply_target os tree f.content (target root f.path))
      (λ after. apply_from os root after files)

-- applyFiles
pub apply_files : Os → Tree → TerraformAgentOutput → Bytes → Tree × Option ApplyError
unfolding apply_from
apply_files os tree output workspace_dir = apply_from os (clean workspace_dir) tree output.files
