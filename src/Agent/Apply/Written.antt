-- ===== src/Agent/Apply/Written.antt =====
-- Every generated file is written, when applyFiles returns no error.
mod Tests
use tfai_go.Base.{
  ◌∙◌, ◌≡◌, refl, Bool, true, false, Option, none, some, List, [], ◌∷◌, Bytes, bytes_eq,
  bytes_eq_refl,
}
use tfai_go.Path.{clean, dir}
use tfai_go.Disk.{
  Tree, Os, Node, file, put_node, written, write_file, made, put_directories, mkdir_all,
}
use tfai_go.Agent.Apply.{
  GeneratedFile, TerraformAgentOutput, Target, skip, outside, inside, target, ApplyError,
  after_write, after_mkdir, apply_target, then_next, apply_from, apply_files,
}
use tfai_go.Disk.Same.{SameFile}
use tfai_go.Agent.Apply.Confined.{apply_target-SameFile, then_next-SameFile}

-- The target of a file is the path.
pub meets : Target → Bytes → Bool
meets skip path = false
meets (outside q) path = false
meets (inside q) path = bytes_eq q path

pub or_earlier : Option Bytes → Bool → Bytes → Option Bytes
or_earlier (some c) here content = some c
or_earlier none true content = some content
or_earlier none false content = none

-- The content of the last of the files whose target is the path.
pub last_content : Bytes → List GeneratedFile → Bytes → Option Bytes
last_content root [] path = none
last_content root (f ∷ files) path =
    or_earlier (last_content root files path) (meets (target root f.path) path) f.content

or_earlier-none :
    (o : Option Bytes) (here : Bool) (content : Bytes)
    → or_earlier o here content ≡ none
    → (o ≡ none) × (here ≡ false)
unfolding or_earlier
or_earlier-none (some c) here content h = cc
or_earlier-none none true content h = cc
or_earlier-none none false content h = (refl, refl)

meets-inside : (t : Target) (path q : Bytes) → meets t path ≡ false → t ≡ inside q → ¬ (q ≡ path)
unfolding meets
meets-inside skip path q h e same = cc
meets-inside (outside r) path q h e same = cc
meets-inside (inside r) path q h e same = differs r (inside_inj r q e) h
  where
    inside_inj : (a b : Bytes) → inside a ≡ inside b → a ≡ b
    inside_inj a b k = cc

    differs : (r : Bytes) → r ≡ q → bytes_eq r path ≡ false → ⊥
    differs r e k = cc (k, bytes_eq_refl path, e, same)

module _ (os : Os) (root path : Bytes) where
  -- The files whose target is another path leave the one at the path as it is.
  apply_from-kept :
      (tree : Tree) (files : List GeneratedFile)
      → last_content root files path ≡ none
      → SameFile (apply_from os root tree files).0 tree path
  unfolding apply_from last_content
  apply_from-kept tree [] h = λ c. (λ e. e, λ e. e)
  apply_from-kept tree (f ∷ files) h =
      let (later, here) =
        or_earlier-none (last_content root files path) (meets (target root f.path) path) f.content
          h in
      then_next-SameFile tree path (apply_target os tree f.content (target root f.path))
        (λ after. apply_from os root after files)
        (apply_target-SameFile os path tree f.content (target root f.path)
          (λ q e. meets-inside (target root f.path) path q here e))
        (λ after. apply_from-kept after files later)

  after_write-written :
      (tree : Tree) (q content : Bytes) (failed : Option (Bytes × Node))
      → (after_write q (written tree q content failed)).1 ≡ none
      → bytes_eq q path ≡ true
      → (after_write q (written tree q content failed)).0 path ≡ file content
  unfolding after_write written put_node
  after_write-written tree q content none h e = rw e refl
  after_write-written tree q content (some (message, left)) h e = cc

  after_mkdir-written :
      (tree : Tree) (q content d : Bytes) (failed : Option (Bytes × Bytes))
      → (after_mkdir os q content (made tree d failed)).1 ≡ none
      → bytes_eq q path ≡ true
      → (after_mkdir os q content (made tree d failed)).0 path ≡ file content
  unfolding after_mkdir made write_file
  after_mkdir-written tree q content d none h e =
      after_write-written (put_directories tree d) q content
        (os.write_error (put_directories tree d) q) h e
  after_mkdir-written tree q content d (some (message, down_to)) h e = cc

  apply_target-written :
      (tree : Tree) (content : Bytes) (t : Target)
      → (apply_target os tree content t).1 ≡ none
      → meets t path ≡ true
      → (apply_target os tree content t).0 path ≡ file content
  unfolding apply_target mkdir_all meets
  apply_target-written tree content skip h e = cc
  apply_target-written tree content (outside q) h e = cc
  apply_target-written tree content (inside q) h e =
      after_mkdir-written tree q content (dir q) (os.mkdir_error tree (dir q)) h e

  -- One round and the rounds after it.
  then_next-written :
      (files : List GeneratedFile) (now : Tree × Option ApplyError) (here : Bool)
      (content c : Bytes) (later : Option Bytes)
      → last_content root files path ≡ later
      → (now.1 ≡ none → here ≡ true → now.0 path ≡ file content)
      → ((after : Tree)
          → (apply_from os root after files).1 ≡ none
          → last_content root files path ≡ some c
          → (apply_from os root after files).0 path ≡ file c)
      → (then_next now (λ after. apply_from os root after files)).1 ≡ none
      → or_earlier later here content ≡ some c
      → (then_next now (λ after. apply_from os root after files)).0 path ≡ file c
  unfolding then_next or_earlier
  then_next-written files (after, some e) here content c later k wrote rest h found = cc
  then_next-written files (after, none) here content c (some d) k wrote rest h found =
      rest after h (k ∙ found)
  then_next-written files (after, none) true content c none k wrote rest h found =
      (apply_from-kept after files k c).1 (wrote refl refl ∙ file_of content found)
    where
      file_of : (a : Bytes) → some a ≡ some c → file a ≡ file c
      file_of a e = cc
  then_next-written files (after, none) false content c none k wrote rest h found = cc

  apply_from-written :
      (tree : Tree) (files : List GeneratedFile) (c : Bytes)
      → (apply_from os root tree files).1 ≡ none
      → last_content root files path ≡ some c
      → (apply_from os root tree files).0 path ≡ file c
  unfolding apply_from last_content
  apply_from-written tree [] c h found = cc
  apply_from-written tree (f ∷ files) c h found =
      then_next-written files (apply_target os tree f.content (target root f.path))
        (meets (target root f.path) path) f.content c (last_content root files path) refl
        (λ done here. apply_target-written tree f.content (target root f.path) done here)
        (λ after done later. apply_from-written after files c done later) h found

-- Where applyFiles returns no error, each path that some file of the answer is meant for holds the content
-- of the last such file.
pub apply_files-written :
    (os : Os) (tree : Tree) (output : TerraformAgentOutput) (workspace_dir path c : Bytes)
    → (apply_files os tree output workspace_dir).1 ≡ none
    → last_content (clean workspace_dir) output.files path ≡ some c
    → (apply_files os tree output workspace_dir).0 path ≡ file c
unfolding apply_files
apply_files-written os tree output workspace_dir path c h found =
    apply_from-written os (clean workspace_dir) path tree output.files c h found
