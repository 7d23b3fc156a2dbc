-- ===== src/Tools/Generate.antt =====
-- GenerateTool of internal/tools/generate.go: files written below a directory. The order in which Go
-- ranges over the map of files is that of the list.
pub mod Confined
use tfai_go.Base.{
  ◌==◌, ℕ, Bool, Option, none, some, List, [], ◌∷◌, ◌++◌, Bytes, codes, bytes_eq, has_prefix,
  length, join_with, Result, ok, err, not, if◌then◌else◌,
}
use tfai_go.Path.{separator, clean, join, dir}
use tfai_go.Disk.{Tree, Os, write_file, mkdir_all}
use tfai_go.Agent.Messages.{decimal}

-- An entry of the map: the name and the content.
pub record NamedFile : Type 0 where
  pub name : Bytes
  pub content : Bytes

-- generateInput
pub record GenerateInput : Type 0 where
  pub dir : Bytes
  pub files : List NamedFile

pub after_file : Bytes → Tree × Result (Unit {0}) → Tree × Result Bytes
after_file path (tree, ok _) = (tree, ok path)
after_file path (tree, err e) = (tree, err (codes "failed to write " ++ path ++ codes ": " ++ e))

pub after_subdir : Os → Bytes → NamedFile → Tree × Result (Unit {0}) → Tree × Result Bytes
unfolding after_file
after_subdir os path f (tree, ok _) = after_file path (write_file os tree path f.content)
after_subdir os path f (tree, err e) =
    (tree, err (codes "failed to create subdir for " ++ f.name ++ codes ": " ++ e))

-- One round of the loop: the path that is written, or the error.
pub generate_file : Os → Bytes → Tree → NamedFile → Tree × Result Bytes
unfolding after_subdir
generate_file os root tree f =
    let path = join root f.name in
    if not (has_prefix (path ++ separator ∷ []) (root ++ separator ∷ []))
    then (tree, err (codes "file path " ++ f.name ++ codes " is outside target directory"))
    else after_subdir os path f (mkdir_all os tree (dir path))

-- The next round, unless this one returned an error.
pub then_file :
    Tree × Result Bytes → (Tree → Bytes → Tree × Result (List Bytes)) → Tree × Result (List Bytes)
then_file (tree, ok path) next = next tree path
then_file (tree, err e) next = (tree, err e)

pub generate_files : Os → Bytes → Tree → List Bytes → List NamedFile → Tree × Result (List Bytes)
unfolding generate_file then_file
generate_files os root tree written [] = (tree, ok written)
generate_files os root tree written (f ∷ files) =
    then_file (generate_file os root tree f)
      (λ after path. generate_files os root after (written ++ path ∷ []) files)

pub generate_report : Bytes → Tree × Result (List Bytes) → Tree × Result Bytes
generate_report dir (tree, err e) = (tree, err e)
generate_report dir (tree, ok written) = (
  tree,
  ok (
      codes "Successfully wrote "
      ++ decimal (length written)
      ++ codes " file(s) to "
      ++ dir
      ++ codes ":\n["
      ++ join_with b' ' written
      ++ codes "]"),
)

pub in_root : Os → GenerateInput → Tree × Result (Unit {0}) → Tree × Result Bytes
unfolding generate_files generate_report
in_root os input (tree, err e) = (tree, err (codes "failed to create directory: " ++ e))
in_root os input (tree, ok _) =
    generate_report input.dir (generate_files os (clean input.dir) tree [] input.files)

-- GenerateTool.InvokableRun
pub generate_run : Os → Tree → Result GenerateInput → Tree × Result Bytes
unfolding in_root
generate_run os tree (err e) = (tree, err (codes "invalid input: " ++ e))
generate_run os tree (ok input) =
    if bytes_eq input.dir []
    then (tree, err (codes "dir is required"))
    else if length input.files == 0
    then (tree, err (codes "files map must not be empty"))
    else in_root os input (mkdir_all os tree (clean input.dir))
