-- ===== src/Agent/Apply/Confined.antt =====
-- No generated file is written outside the workspace.
use tfai_go.Base.{
  ◌≡◌, refl, inl, inr, Option, none, some, List, [], ◌∷◌, ◌++◌, Bytes, codes, bytes_eq, has_prefix,
  ◌||◌, Bool-cases,
}
use tfai_go.Path.{separator, clean, join, dir}
use tfai_go.Path.Prefix.{Within, has_prefix-Within}
use tfai_go.Disk.{Tree, Os, Node, file, written, write_file, made, put_directories, mkdir_all}
use tfai_go.Disk.Same.{
  SameFile, SameFile-refl, SameFile-trans, put_directories-SameFile, put_node-SameFile,
}
use tfai_go.Agent.Apply.{
  then_next, GeneratedFile, TerraformAgentOutput, relative_path, Target, skip, outside, inside,
  target, ApplyError, after_write, after_mkdir, apply_target, apply_from, apply_files,
}

module _ (os : Os) (other : Bytes) where
  after_write-SameFile :
      (tree : Tree) (path content : Bytes) (failed : Option (Bytes × Node))
      → ¬ (path ≡ other)
      → SameFile (after_write path (written tree path content failed)).0 tree other
  unfolding after_write written
  after_write-SameFile tree path content none ne =
      put_node-SameFile tree path (file content) other ne
  after_write-SameFile tree path content (some (message, left)) ne =
      put_node-SameFile tree path left other ne

  write_file-SameFile :
      (tree : Tree) (path content : Bytes)
      → ¬ (path ≡ other)
      → SameFile (after_write path (write_file os tree path content)).0 tree other
  unfolding write_file
  write_file-SameFile tree path content ne =
      after_write-SameFile tree path content (os.write_error tree path) ne

  after_mkdir-SameFile :
      (tree : Tree) (path content d : Bytes) (failed : Option (Bytes × Bytes))
      → ¬ (path ≡ other)
      → SameFile (after_mkdir os path content (made tree d failed)).0 tree other
  unfolding after_mkdir made
  after_mkdir-SameFile tree path content d none ne =
      let made_tree = put_directories tree d in
      SameFile-trans (after_write path (write_file os made_tree path content)).0 made_tree tree
        other (write_file-SameFile made_tree path content ne)
        (put_directories-SameFile tree d other)
  after_mkdir-SameFile tree path content d (some (message, down_to)) ne =
      put_directories-SameFile tree down_to other

  pub apply_target-SameFile :
      (tree : Tree) (content : Bytes) (t : Target)
      → ((path : Bytes) → t ≡ inside path → ¬ (path ≡ other))
      → SameFile (apply_target os tree content t).0 tree other
  unfolding apply_target mkdir_all
  apply_target-SameFile tree content skip h = SameFile-refl tree other
  apply_target-SameFile tree content (outside path) h = SameFile-refl tree other
  apply_target-SameFile tree content (inside path) h =
      after_mkdir-SameFile tree path content (dir path) (os.mkdir_error tree (dir path))
        (h path refl)

-- A file that is not passed over or refused is meant for a path inside the root.
target-Within : (root path p : Bytes) → target root path ≡ inside p → Within root p
unfolding target
target-Within root path p h =
    let relative = relative_path root path in
    let file_path = join root relative in
    elim (Bool-cases (bytes_eq relative [] || bytes_eq relative (codes "."))) [
      | inl e ↦ cc (rw e at h)
      | inr e ↦
          elim (Bool-cases (has_prefix (file_path ++ separator ∷ []) (root ++ separator ∷ []))) [
            | inl d ↦
                rw (← inside_inj file_path p (rw (e, d) at h)) (has_prefix-Within file_path root d)
            | inr d ↦ cc (rw (e, d) at h)
          ]
    ]
  where
    inside_inj : (a b : Bytes) → inside a ≡ inside b → a ≡ b
    inside_inj a b k = cc

pub then_next-SameFile :
    (tree : Tree) (other : Bytes) (now : Tree × Option ApplyError)
    (next : Tree → Tree × Option ApplyError)
    → SameFile now.0 tree other
    → ((after : Tree) → SameFile (next after).0 after other)
    → SameFile (then_next now next).0 tree other
unfolding then_next
then_next-SameFile tree other (after, none) next h k =
    SameFile-trans (next after).0 after tree other (k after) h
then_next-SameFile tree other (after, some e) next h k = h

apply_from-SameFile :
    (os : Os) (root other : Bytes)
    → ¬ Within root other
    → (tree : Tree) (files : List GeneratedFile)
    → SameFile (apply_from os root tree files).0 tree other
unfolding apply_from
apply_from-SameFile os root other away tree [] = SameFile-refl tree other
apply_from-SameFile os root other away tree (f ∷ files) =
    then_next-SameFile tree other (apply_target os tree f.content (target root f.path))
      (λ after. apply_from os root after files)
      (apply_target-SameFile os other tree f.content (target root f.path)
        (λ p e k. away (rw k at (target-Within root f.path p e))))
      (λ after. apply_from-SameFile os root other away after files)

-- applyFiles, whatever the answer of the model holds and wherever it stops, neither makes, changes nor
-- removes a file at a path that is not the cleaned workspace directory or inside it.
pub apply_files-SameFile :
    (os : Os) (tree : Tree) (output : TerraformAgentOutput) (workspace_dir other : Bytes)
    → ¬ Within (clean workspace_dir) other
    → SameFile (apply_files os tree output workspace_dir).0 tree other
unfolding apply_files
apply_files-SameFile os tree output workspace_dir other away =
    apply_from-SameFile os (clean workspace_dir) other away tree output.files
