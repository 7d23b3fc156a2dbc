-- ===== src/Workspace/Scaffold/Confined.antt =====
-- A scaffold changes no file outside the root, also where it fails half way.
use tfai_go.Base.{
  ◌≡◌, ◌≢◌, ◌∙◌, refl, sym, inl, inr, ◌↔◌, Option, none, some, true, List, [], ◌∷◌, ◌++◌,
  append_assoc, Bytes, codes, bytes_eq, Result, ok, err, All,
}
use tfai_go.Path.{separator, clean, join, is_abs, push_element}
use tfai_go.Path.Normal.{clean_idem, is_abs-clean}
use tfai_go.Path.Join.{IsName, join-append, is_abs-filled}
use tfai_go.Path.Prefix.{Within}
use tfai_go.Disk.{Tree, Node, missing, directory, file, Os, write_file}
use tfai_go.Disk.Same.{SameFile, SameFile-refl, SameFile-trans, write_file-SameFile}
use tfai_go.Workspace.{Response, confine_rest, resolve_abs_dir}
use tfai_go.Workspace.Scaffold.{
  handle_workspace_create, create_confined, CreateWorkspaceRequest, ScaffoldFile, scaffold_files,
  prompt_of, next_file, write_scaffold, in_directory,
}
use tfai_go.Workspace.Scaffold.Written.{confined_dir}

scaffold_files-IsName : All (λ f. IsName f.name) scaffold_files
unfolding scaffold_files tfai_go.Base.split tfai_go.Base.push_head push_element bytes_eq
scaffold_files-IsName = (
  record { filled = λ h. cc; one = refl; pushed = λ stack. refl },
  (
    record { filled = λ h. cc; one = refl; pushed = λ stack. refl },
    (
      record { filled = λ h. cc; one = refl; pushed = λ stack. refl },
      (record { filled = λ h. cc; one = refl; pushed = λ stack. refl }, tt),
    ),
  ),
)

append-deep : (r rest : Bytes) → is_abs r ≡ true → r ++ separator ∷ rest ≢ codes "/"
unfolding is_abs
append-deep [] rest h e = cc
append-deep (c ∷ []) rest h e = cc
append-deep (c ∷ d ∷ r) rest h e = cc

-- What is behind a directory that is inside the root is inside it too.
Within-append : (root d name : Bytes) → Within root d → Within root (d ++ separator ∷ name)
Within-append root d name (inl e) = inr (name, rw e refl)
Within-append root d name (inr (rest, e)) =
    inr (rest ++ separator ∷ name, rw e (append_assoc root (separator ∷ rest) (separator ∷ name)))

module _ (os : Os) (other : Bytes) where
  next_file-SameFile :
      (start : Tree) (name : Bytes) (now : Tree × Result (Unit {0})) (rest : Tree → Tree × Response)
      → SameFile now.0 start other
      → ((after : Tree) → SameFile (rest after).0 after other)
      → SameFile (next_file name now rest).0 start other
  unfolding next_file
  next_file-SameFile start name (tree, ok _) rest h k =
      SameFile-trans (rest tree).0 tree start other (k tree) h
  next_file-SameFile start name (tree, err e) rest h k = h

  write_scaffold-SameFile :
      (dir prompt : Bytes) (tree : Tree) (names : List Bytes) (files : List ScaffoldFile)
      → All (λ f. ¬ (join dir f.name ≡ other)) files
      → SameFile (write_scaffold os dir prompt tree names files).0 tree other
  unfolding write_scaffold
  write_scaffold-SameFile dir prompt tree names [] h = SameFile-refl tree other
  write_scaffold-SameFile dir prompt tree names (f ∷ files) (ne, h) =
      next_file-SameFile tree f.name (write_file os tree (join dir f.name) f.content) _
        (write_file-SameFile tree other os (join dir f.name) f.content ne)
        (λ after. write_scaffold-SameFile dir prompt after (names ++ f.name ∷ []) files h)

  in_directory-SameFile :
      (tree : Tree) (dir description : Bytes) (failed : Option Bytes) (node : Node)
      → All (λ f. ¬ (join dir f.name ≡ other)) scaffold_files
      → SameFile (in_directory os tree dir description failed node).0 tree other
  unfolding in_directory
  in_directory-SameFile tree dir description (some message) node h = SameFile-refl tree other
  in_directory-SameFile tree dir description none missing h = SameFile-refl tree other
  in_directory-SameFile tree dir description none (file content) h = SameFile-refl tree other
  in_directory-SameFile tree dir description none directory h =
      write_scaffold-SameFile dir (prompt_of description) tree [] scaffold_files h

  module _ (root : Bytes) (rooted : is_abs root ≡ true) (deep : clean root ≢ codes "/")
      (away : ¬ Within (clean root) other) where
    inside_deep : (d : Bytes) → Within (clean root) d → d ≢ codes "/"
    inside_deep d (inl e) k = deep (sym e ∙ k)
    inside_deep d (inr (rest, e)) k =
        append-deep (clean root) rest (is_abs-clean root ∙ rooted) (sym e ∙ k)

    not_other :
        (d : Bytes) (files : List ScaffoldFile)
        → is_abs d ≡ true
        → clean d ≡ d
        → Within (clean root) d
        → All (λ f. IsName f.name) files
        → All (λ f. ¬ (join d f.name ≡ other)) files
    not_other d [] a c w n = tt
    not_other d (f ∷ files) a c w (n, ns) = (
      λ e. away (
          rw (sym e ∙ join-append d f.name a n c (inside_deep d w))
            (Within-append (clean root) d f.name w)),
      not_other d files a c w ns,
    )

    create_confined-SameFile :
        (tree : Tree) (body : CreateWorkspaceRequest) (r : Result Bytes)
        → root ≢ []
        → confine_rest root (resolve_abs_dir body.dir) ≡ r
        → SameFile (create_confined os tree body.description r).0 tree other
    unfolding create_confined
    create_confined-SameFile tree body (err message) set e = SameFile-refl tree other
    create_confined-SameFile tree body (ok d) set e =
        let (same, abs, within) = confined_dir root body.dir d (resolve_abs_dir body.dir) refl e in
        in_directory-SameFile tree d body.description (os.stat_error tree d) (tree d) (
          not_other d scaffold_files abs (rw same (clean_idem body.dir)) (within set)
            scaffold_files-IsName)

    -- With an absolute root that is not the root of the file system, POST /api/workspace/create, whatever
    -- it asks for and wherever it stops, neither makes, changes nor removes a file outside the root.
    pub handle_workspace_create-SameFile :
        (tree : Tree) (request : Result CreateWorkspaceRequest)
        → SameFile (handle_workspace_create os root tree request).0 tree other
    unfolding handle_workspace_create
    handle_workspace_create-SameFile tree (err message) = SameFile-refl tree other
    handle_workspace_create-SameFile tree (ok body) =
        create_confined-SameFile tree body _ (is_abs-filled root rooted) refl
