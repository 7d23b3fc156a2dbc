-- ===== src/Workspace/Save/Outside.antt =====
-- A save changes no file outside the root.
use tfai_go.Base.{◌≡◌, ◌≢◌, inl, inr, sym, [], Bytes, Result, ok, err}
use tfai_go.Path.{clean}
use tfai_go.Path.Prefix.{Within}
use tfai_go.Disk.{Tree, Node, Os, file, put_node}
use tfai_go.Disk.Same.{SameFile, SameFile-refl, put_node-SameFile}
use tfai_go.Workspace.{FileSaveRequest, handle_file_save}
use tfai_go.Workspace.Save.{handle_file_save-cases}

module _ (os : Os) (other root : Bytes) (set : root ≢ []) (away : ¬ Within (clean root) other) where
  put-Within :
      (tree after : Tree) (path : Bytes) (node : Node)
      → Within (clean root) path
      → after ≡ put_node tree path node
      → SameFile after tree other
  put-Within tree after path node w e =
      rw e (put_node-SameFile tree path node other (λ same. away (rw (sym same) w)))

  -- With a root configured, PUT /api/file, whatever it asks for and whether or not it succeeds, neither
  -- makes, changes nor removes a file outside the root.
  pub handle_file_save-SameFile :
      (tree : Tree) (request : Result FileSaveRequest)
      → SameFile (handle_file_save os root tree request).0 tree other
  unfolding handle_file_save
  handle_file_save-SameFile tree (err message) = SameFile-refl tree other
  handle_file_save-SameFile tree (ok body) = elim (handle_file_save-cases os root tree body) [
    | inl (_, e) ↦ rw e (SameFile-refl tree other)
    | inr (inl (_, (left, e)), _, inside) ↦ put-Within tree _ (clean body.path) left (inside set) e
    | inr (inr (_, e), _, inside) ↦
        put-Within tree _ (clean body.path) (file body.content) (inside set) e
  ]
