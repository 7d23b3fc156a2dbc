-- ===== src/Workspace/Scaffold/Written.antt =====
-- What POST /api/workspace/create leaves behind.
use tfai_go.Path.Normal.{clean_idem}
use tfai_go.Workspace.Confine.{confine_to_root_iff}
use tfai_go.Base.{
  inr, err, inl, ok, Result, true, bytes_eq, Bool-cases, ◌∙◌, ◌≡◌, ◌≢◌, refl, ℕ, Option, none, some,
  List, [], ◌∷◌, ◌++◌, append_assoc, append-nil, Bytes, arith, ap, sym,
}
use tfai_go.Path.{clean, join, is_abs}
use tfai_go.Path.Prefix.{Within}
use tfai_go.Disk.{Tree, Node, missing, directory, file, Os, put_file, written, write_file}
use tfai_go.Workspace.{confine_rest, resolve_abs_dir, Response, created_body, json_error}
use tfai_go.Workspace.Scaffold.{
  handle_workspace_create, create_confined, CreateWorkspaceRequest, ScaffoldFile, scaffold_files,
  prompt_of, next_file, write_scaffold, in_directory,
}

-- The tree with every file of a scaffold in a directory.
abbrev pub put_all : Tree → Bytes → List ScaffoldFile → Tree
put_all tree dir [] = tree
put_all tree dir (f ∷ files) = put_all (put_file tree (join dir f.name) f.content) dir files

abbrev pub names_of : List ScaffoldFile → List Bytes
names_of [] = []
names_of (f ∷ files) = f.name ∷ names_of files

-- The answer to a scaffold that was written.
abbrev pub created : Bytes → List Bytes → Bytes → Response
created dir names prompt = record { status = 200; body = created_body dir names prompt }

refused : (message : Bytes) (status : ℕ) → (json_error message status).status ≡ status
unfolding json_error
refused message status = refl

next_file-ok :
    (tree : Tree) (path name content : Bytes) (failed : Option (Bytes × Node))
    (rest : Tree → Tree × Response)
    → (next_file name (written tree path content failed) rest).1.status ≡ 200
    → next_file name (written tree path content failed) rest ≡ rest (put_file tree path content)
unfolding next_file written
next_file-ok tree path name content none rest h = refl
next_file-ok tree path name content (some (message, left)) rest h = ground (arith, h)

write_scaffold-ok :
    (os : Os) (dir prompt : Bytes) (tree : Tree) (names : List Bytes) (files : List ScaffoldFile)
    → (write_scaffold os dir prompt tree names files).1.status ≡ 200
    → write_scaffold os dir prompt tree names files
      ≡ (put_all tree dir files, created dir (names ++ names_of files) prompt)
unfolding write_scaffold write_file
write_scaffold-ok os dir prompt tree names [] h = rw append-nil refl
write_scaffold-ok os dir prompt tree names (f ∷ files) h =
    let path = join dir f.name in
    let step =
      next_file-ok tree path f.name f.content (os.write_error tree path)
        (λ after. write_scaffold os dir prompt after (names ++ f.name ∷ []) files) h in
    step
    ∙ write_scaffold-ok os dir prompt (put_file tree path f.content) (names ++ f.name ∷ []) files
        (sym (ap (λ (r : Tree × Response). r.1.status) step) ∙ h)
    ∙ rw append_assoc refl

-- What the answer 200 to a scaffold says.
abbrev pub IsCreated : Bytes → Tree → CreateWorkspaceRequest → Tree × Response → Type 0
IsCreated workspace_root tree body r =
    let dir = clean body.dir in
    (is_abs dir ≡ true)
    × (workspace_root ≢ [] → Within (clean workspace_root) dir)
    × (tree dir ≡ directory)
    × (r ≡ (
      put_all tree dir scaffold_files,
      created dir (names_of scaffold_files) (prompt_of body.description),
    ))

in_directory-ok :
    (os : Os) (tree : Tree) (dir description : Bytes) (failed : Option Bytes) (node : Node)
    → (in_directory os tree dir description failed node).1.status ≡ 200
    → (node ≡ directory)
      × (in_directory os tree dir description failed node ≡ (
        put_all tree dir scaffold_files,
        created dir (names_of scaffold_files) (prompt_of description),
      ))
unfolding in_directory
in_directory-ok os tree dir description (some message) node h = ground (arith, h)
in_directory-ok os tree dir description none missing h = ground (arith, h)
in_directory-ok os tree dir description none (file content) h = ground (arith, h)
in_directory-ok os tree dir description none directory h =
    (refl, write_scaffold-ok os dir (prompt_of description) tree [] scaffold_files h)

resolve_abs_dir-ok :
    (raw d : Bytes) → resolve_abs_dir raw ≡ ok d → (d ≡ clean raw) × (is_abs d ≡ true)
unfolding resolve_abs_dir
resolve_abs_dir-ok raw d h = elim (Bool-cases (bytes_eq raw [])) [
  | inl e ↦ cc (rw e at h)
  | inr e ↦ elim (Bool-cases (is_abs (clean raw))) [
    | inl k ↦
        let same : clean raw ≡ d = ok_inj (clean raw) (rw (e, k) at h) in (sym same, rw (← same) k)
    | inr k ↦ cc (rw (e, k) at h)
  ]
]
  where
    ok_inj : (a : Bytes) → ok a ≡ ok d → a ≡ d
    ok_inj a k = cc

-- The directory that the two checks give.
pub confined_dir :
    (workspace_root raw d : Bytes) (r : Result Bytes)
    → resolve_abs_dir raw ≡ r
    → confine_rest workspace_root r ≡ ok d
    → (d ≡ clean raw) × (is_abs d ≡ true) × (workspace_root ≢ [] → Within (clean workspace_root) d)
unfolding confine_rest
confined_dir workspace_root raw d (err message) e h = cc
confined_dir workspace_root raw d (ok inside) e h =
    let (same, rooted) = resolve_abs_dir-ok raw inside e in
    let (here, within) =
      (confine_to_root_iff workspace_root inside d (rw same (clean_idem raw))).0 h in
    (here ∙ same, rw here rooted, within)

create_confined-ok :
    (os : Os) (workspace_root : Bytes) (tree : Tree) (body : CreateWorkspaceRequest)
    (r : Result Bytes)
    → confine_rest workspace_root (resolve_abs_dir body.dir) ≡ r
    → (create_confined os tree body.description r).1.status ≡ 200
    → IsCreated workspace_root tree body (create_confined os tree body.description r)
unfolding create_confined
create_confined-ok os workspace_root tree body (err message) e h = ground (arith, h)
create_confined-ok os workspace_root tree body (ok d) e h =
    let (same, rooted, within) =
      confined_dir workspace_root body.dir d (resolve_abs_dir body.dir) refl e in
    let (there, all) =
      in_directory-ok os tree d body.description (os.stat_error tree d) (tree d) h in
    (rw (← same) rooted, rw (← same) within, rw (← same) there, rw (← same) all)

-- POST /api/workspace/create answers 200 only if the directory of the request, cleaned, is absolute, inside
-- the root if one is configured, and a directory already; then the four files of the scaffold are
-- written in it, nothing else has changed, and the answer names them.
pub handle_workspace_create-ok :
    (os : Os) (workspace_root : Bytes) (tree : Tree) (body : CreateWorkspaceRequest)
    → (handle_workspace_create os workspace_root tree (ok body)).1.status ≡ 200
    → IsCreated workspace_root tree body (handle_workspace_create os workspace_root tree (ok body))
unfolding handle_workspace_create
handle_workspace_create-ok os workspace_root tree body h =
    create_confined-ok os workspace_root tree body
      (confine_rest workspace_root (resolve_abs_dir body.dir)) refl h
