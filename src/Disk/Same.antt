-- ===== src/Disk/Same.antt =====
-- Which files two trees share, and which the calls of package os leave as they are.
use tfai_go.Base.{
  ◌≡◌, inl, inr, ◌↔◌, Option, none, some, Bytes, bytes_eq, bytes_eq_sound, if◌then◌else◌,
  Bool-cases, Bool, true, false,
}
use tfai_go.Disk.{
  Tree, Os, Node, missing, directory, file, put_node, written, write_file, made, mkdir_all,
  put_directories, is_above, or_directory,
}

-- The same file content, or none, at a path of two trees.
abbrev pub SameFile : Tree → Tree → Bytes → Type 0
SameFile a b path = (c : Bytes) → (a path ≡ file c) ↔ (b path ≡ file c)

pub SameFile-refl : (a : Tree) (path : Bytes) → SameFile a a path
SameFile-refl a path c = (λ h. h, λ h. h)

pub SameFile-trans :
    (a b d : Tree) (path : Bytes) → SameFile a b path → SameFile b d path → SameFile a d path
SameFile-trans a b d path h k c = (λ x. (k c).0 ((h c).0 x), λ x. (h c).1 ((k c).1 x))

pub put_directories-SameFile :
    (tree : Tree) (d path : Bytes) → SameFile (put_directories tree d) tree path
unfolding put_directories
put_directories-SameFile tree d path c = by_node (is_above path d) (tree path)
  where
    by_node : (b : Bool) (n : Node) → ((if b then or_directory n else n) ≡ file c) ↔ (n ≡ file c)
    by_node true missing = (λ h. cc, λ h. cc)
    by_node true directory = (λ h. cc, λ h. cc)
    by_node true (file x) = (λ h. h, λ h. h)
    by_node false n = (λ h. h, λ h. h)

pub put_node-SameFile :
    (tree : Tree) (path : Bytes) (node : Node) (other : Bytes)
    → ¬ (path ≡ other)
    → SameFile (put_node tree path node) tree other
unfolding put_node
put_node-SameFile tree path node other ne c = elim (Bool-cases (bytes_eq path other)) [
  | inl e ↦ absurd (ne (bytes_eq_sound path other e))
  | inr e ↦ rw e (λ h. h, λ h. h)
]

module _ (tree : Tree) (other : Bytes) where
  written-SameFile :
      (path content : Bytes) (failed : Option (Bytes × Node))
      → ¬ (path ≡ other)
      → SameFile (written tree path content failed).0 tree other
  unfolding written
  written-SameFile path content none ne = put_node-SameFile tree path (file content) other ne
  written-SameFile path content (some (message, left)) ne =
      put_node-SameFile tree path left other ne

  made-SameFile :
      (dir : Bytes) (failed : Option (Bytes × Bytes)) → SameFile (made tree dir failed).0 tree other
  unfolding made
  made-SameFile dir none = put_directories-SameFile tree dir other
  made-SameFile dir (some (message, down_to)) = put_directories-SameFile tree down_to other

  pub write_file-SameFile :
      (os : Os) (path content : Bytes)
      → ¬ (path ≡ other)
      → SameFile (write_file os tree path content).0 tree other
  unfolding write_file
  write_file-SameFile os path content ne =
      written-SameFile path content (os.write_error tree path) ne

  pub mkdir_all-SameFile : (os : Os) (dir : Bytes) → SameFile (mkdir_all os tree dir).0 tree other
  unfolding mkdir_all
  mkdir_all-SameFile os dir = made-SameFile dir (os.mkdir_error tree dir)
