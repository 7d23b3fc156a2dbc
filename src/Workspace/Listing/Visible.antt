-- ===== src/Workspace/Listing/Visible.antt =====
-- Which files GET /api/workspace lists.
use tfai_go.Base.{
  ◌≡◌, ◌≢◌, refl, ◌⊎◌, inl, inr, ◌↔◌, true, false, Option, some, List, [], ◌∷◌, ◌++◌, Bytes, codes,
  Result, ok, err, Bool-cases,
}
use tfai_go.Disk.{Tree, Node, missing, directory, file}
use tfai_go.Path.{clean, is_abs}
use tfai_go.Path.Prefix.{Within}
use tfai_go.Workspace.{resolve_abs_dir, confine_rest}
use tfai_go.Workspace.Scaffold.Written.{confined_dir}
use tfai_go.Workspace.Listing.{
  Dirent, Dirents, plain, nested, nil, cons, name_of, WorkspaceResponse, is_terraform, relative,
  visit_file, skip_directory, is_hidden, visit, visit_all, no_response, listed, walked, list_node,
  list_confined, handle_workspace,
}

abbrev pub IsAmong : Bytes → List Bytes → Type 0
IsAmong path [] = ⊥
IsAmong path (p ∷ ps) = (path ≡ p) ⊎ IsAmong path ps

mutual
  -- A Terraform file of the entry, at the path: no directory on the way to it is hidden.
  pub IsVisible : Bytes → Dirent → Bytes → Type 0
  IsVisible rel (plain name) path = (is_terraform name ≡ true) × (path ≡ rel)
  IsVisible rel (nested name entries) path = (is_hidden name ≡ false) × IsVisibleIn rel entries path

  pub IsVisibleIn : Bytes → Dirents → Bytes → Type 0
  IsVisibleIn rel nil path = ⊥
  IsVisibleIn rel (cons e entries) path =
      IsVisible (relative rel (name_of e)) e path ⊎ IsVisibleIn rel entries path

IsAmong-append :
    (path rel : Bytes) (ps : List Bytes)
    → IsAmong path (ps ++ rel ∷ []) ↔ (IsAmong path ps ⊎ (path ≡ rel))
IsAmong-append path rel [] = (
  λ h. elim h [ inl e ↦ inr e | inr k ↦ absurd k ],
  λ h. elim h [ inl k ↦ absurd k | inr e ↦ inl e ],
)
IsAmong-append path rel (p ∷ ps) =
    let (to, from) = IsAmong-append path rel ps in
    (
      λ h. elim h [
        | inl e ↦ inl (inl e)
        | inr k ↦ elim (to k) [ inl a ↦ inl (inr a) | inr e ↦ inr e ]
      ],
      λ h. elim h [
        | inl a ↦ elim a [ inl e ↦ inl e | inr k ↦ inr (from (inl k)) ]
        | inr e ↦ inr (from (inr e))
      ],
    )

-- What a visit adds to the files.
abbrev Adds : Bytes → WorkspaceResponse → WorkspaceResponse → Type 0 → Type 0
Adds path before after Shown = IsAmong path after.files ↔ (IsAmong path before.files ⊎ Shown)

visit_file-Adds :
    (path rel name : Bytes) (resp : WorkspaceResponse)
    → Adds path resp (visit_file rel name resp) ((is_terraform name ≡ true) × (path ≡ rel))
unfolding visit_file
visit_file-Adds path rel name resp = elim (Bool-cases (is_terraform name)) [
  | inl t ↦
      let (to, from) = IsAmong-append path rel resp.files in
      rw t (
        λ h. elim (to h) [ inl a ↦ inl a | inr e ↦ inr (refl, e) ],
        λ h. elim h [ inl a ↦ from (inl a) | inr (t', e) ↦ from (inr e) ],
      )
  | inr f ↦ rw f (λ h. inl h, λ h. elim h [ inl a ↦ a | inr (t, e) ↦ cc ])
]

mutual
  unfolding visit visit_all skip_directory IsVisible

  visit-Adds :
      (path rel : Bytes) (e : Dirent) (resp : WorkspaceResponse)
      → Adds path resp (visit rel e resp) (IsVisible rel e path)
  visit-Adds path rel (plain name) resp = visit_file-Adds path rel name resp
  visit-Adds path rel (nested name entries) resp =
      let (to, from) = visit_all-Adds path rel entries resp in
      elim (Bool-cases (is_hidden name)) [
        | inl t ↦ rw t (λ h. inl h, λ h. elim h [ inl a ↦ a | inr (f, v) ↦ cc ])
        | inr f ↦ rw f (
          λ h. elim (to h) [ inl a ↦ inl a | inr v ↦ inr (refl, v) ],
          λ h. elim h [ inl a ↦ from (inl a) | inr (f', v) ↦ from (inr v) ],
        )
      ]

  visit_all-Adds :
      (path rel : Bytes) (entries : Dirents) (resp : WorkspaceResponse)
      → Adds path resp (visit_all rel entries resp) (IsVisibleIn rel entries path)
  visit_all-Adds path rel nil resp = (λ h. inl h, λ h. elim h [ inl a ↦ a | inr v ↦ absurd v ])
  visit_all-Adds path rel (cons e entries) resp =
      let next = visit (relative rel (name_of e)) e resp in
      let (to, from) = visit-Adds path (relative rel (name_of e)) e resp in
      let (to_all, from_all) = visit_all-Adds path rel entries next in
      (
        λ h. elim (to_all h) [
          | inl a ↦ elim (to a) [ inl k ↦ inl k | inr v ↦ inr (inl v) ]
          | inr v ↦ inr (inr v)
        ],
        λ h. elim h [
          | inl a ↦ from_all (inl (from (inl a)))
          | inr v ↦ elim v [ inl w ↦ from_all (inl (from (inr w))) | inr w ↦ from_all (inr w) ]
        ],
      )

-- A walk from the root lists exactly the visible files.
walked-IsVisible :
    (e : Dirent) (path : Bytes)
    → IsAmong path (walked (some e)).files ↔ IsVisible (codes ".") e path
unfolding walked
walked-IsVisible e path =
    let (to, from) = visit-Adds path (codes ".") e no_response in
    (λ h. elim (to h) [ inl k ↦ absurd k | inr v ↦ v ], λ v. from (inr v))

list_node-listed :
    (walk : Bytes → Option Dirent) (d dir : Bytes) (node : Node) (resp : WorkspaceResponse)
    → list_node walk d node ≡ listed dir resp
    → (d ≡ dir) × (node ≢ missing) × (resp ≡ walked (walk d))
unfolding list_node
list_node-listed walk d dir missing resp h = cc
list_node-listed walk d dir directory resp h = (cc, λ k. cc, cc)
list_node-listed walk d dir (file content) resp h = (cc, λ k. cc, cc)

list_confined-listed :
    (walk : Bytes → Option Dirent) (tree : Tree) (dir : Bytes) (r : Result Bytes)
    (resp : WorkspaceResponse)
    → list_confined walk tree r ≡ listed dir resp
    → (r ≡ ok dir) × (tree dir ≢ missing) × (resp ≡ walked (walk dir))
unfolding list_confined
list_confined-listed walk tree dir (err message) resp h = cc
list_confined-listed walk tree dir (ok d) resp h =
    let (same, there, resp_is) = list_node-listed walk d dir (tree d) resp h in
    (rw same refl, rw (← same) there, rw (← same) resp_is)

-- GET /api/workspace lists files only for a path where there is something, which may be a regular file; that is
-- the requested one, cleaned; that is absolute; and that is inside the root if one is configured. Where the walk
-- reaches the path, it lists exactly the paths of the files with the extension .tf or .tfvars that have no hidden
-- directory above them, the walked one itself included.
pub handle_workspace-listed :
    (walk : Bytes → Option Dirent) (workspace_root : Bytes) (tree : Tree) (raw dir : Bytes)
    (resp : WorkspaceResponse) (e : Dirent)
    → handle_workspace walk workspace_root tree raw ≡ listed dir resp
    → walk dir ≡ some e
    → (dir ≡ clean raw)
      × (is_abs dir ≡ true)
      × (workspace_root ≢ [] → Within (clean workspace_root) dir)
      × (tree dir ≢ missing)
      × ((path : Bytes) → IsAmong path resp.files ↔ IsVisible (codes ".") e path)
unfolding handle_workspace
handle_workspace-listed walk workspace_root tree raw dir resp e h w =
    let (given, there, resp_is) =
      list_confined-listed walk tree dir (confine_rest workspace_root (resolve_abs_dir raw)) resp
        h in
    let (same, rooted, within) =
      confined_dir workspace_root raw dir (resolve_abs_dir raw) refl given in
    (same, rooted, within, there, λ path. rw (resp_is, w) (walked-IsVisible e path))
