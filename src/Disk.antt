-- ===== src/Disk.antt =====
-- The file system: a tree of nodes by cleaned path. Package os is seen through `Os`: which calls fail
-- in a tree, and with what message. A write that fails may leave any node at its path (the file may
-- be truncated, or written in part), and os.MkdirAll that fails may have made the directories down to
-- some directory.
pub mod Same
use tfai_go.Base.{
  Bool, Option, none, some, [], ◌∷◌, ◌++◌, Bytes, bytes_eq, codes, has_prefix, Result, ok, err,
  ◌||◌, if◌then◌else◌,
}
use tfai_go.Path.{separator}

pub data Node : Type 0 where
  missing directory : Node
  file : Bytes → Node

abbrev pub Tree : Type 0
Tree = Bytes → Node

pub record Os : Type 0 where
  -- the error of os.WriteFile, with what is left at the path
  pub write_error : Tree → Bytes → Option (Bytes × Node)
  -- the error of os.MkdirAll, with the directory down to which there are directories then
  pub mkdir_error : Tree → Bytes → Option (Bytes × Bytes)
  -- the errors of os.ReadFile and os.Stat other than "does not exist"
  pub read_error : Tree → Bytes → Option Bytes
  pub stat_error : Tree → Bytes → Option Bytes

unfoldable pub put_node : Tree → Bytes → Node → Tree
put_node tree path node other = if bytes_eq path other then node else tree other

abbrev pub put_file : Tree → Bytes → Bytes → Tree
put_file tree path content = put_node tree path (file content)

-- os.WriteFile: the tree after it, by the error that the system gives
unfoldable pub written : Tree → Bytes → Bytes → Option (Bytes × Node) → Tree × Result (Unit {0})
unfolding put_node
written tree path content none = (put_file tree path content, ok tt)
written tree path content (some (message, left)) = (put_node tree path left, err message)

unfoldable pub write_file : Os → Tree → Bytes → Bytes → Tree × Result (Unit {0})
unfolding written
write_file os tree path content = written tree path content (os.write_error tree path)

-- The path is the directory, or a directory above it.
unfoldable pub is_above : Bytes → Bytes → Bool
is_above path dir =
    bytes_eq path (codes "/") || has_prefix (dir ++ separator ∷ []) (path ++ separator ∷ [])

abbrev pub or_directory : Node → Node
or_directory missing = directory
or_directory directory = directory
or_directory (file content) = file content

unfoldable pub put_directories : Tree → Bytes → Tree
unfolding is_above
put_directories tree dir path = if is_above path dir then or_directory (tree path) else tree path

-- os.MkdirAll: the directory and those above it, where there is none yet
unfoldable pub made : Tree → Bytes → Option (Bytes × Bytes) → Tree × Result (Unit {0})
unfolding put_directories
made tree dir none = (put_directories tree dir, ok tt)
made tree dir (some (message, down_to)) = (put_directories tree down_to, err message)

unfoldable pub mkdir_all : Os → Tree → Bytes → Tree × Result (Unit {0})
unfolding made
mkdir_all os tree dir = made tree dir (os.mkdir_error tree dir)
