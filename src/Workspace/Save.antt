-- ===== src/Workspace/Save.antt =====
-- What PUT /api/file and GET /api/file can touch.
pub mod Outside
use tfai_go.Base.{
  Result, ok, err, none, some, ap, bytes_eq, Bool-cases, arith, [], inl, inr, ◌⊎◌, Option, Bytes,
  ◌≢◌, ◌≡◌, refl,
}
use tfai_go.Path.{clean}
use tfai_go.Path.Prefix.{Within}
use tfai_go.Workspace.Confine.{confine_twice_iff}
use tfai_go.Disk.{put_node, written, file, Tree, Node, Os, put_file}
use tfai_go.Workspace.{
  Response, FileSaveRequest, json_error, saved, save_confined, confine_twice, handle_file_save,
  read_confined, handle_file_read, file_body, saved_body,
}

-- A refused save: another status than 200, and no file has changed.
abbrev pub IsRefused : Tree → Tree × Response → Type 0
IsRefused tree (after, response) = (response.status ≢ 200) × (after ≡ tree)

-- A save of the content at the path.
abbrev pub IsSaved : Tree → Bytes → Bytes → Tree × Response → Type 0
IsSaved tree path content (after, response) =
    (response ≡ record { status = 200; body = saved_body }) × (after ≡ put_file tree path content)

-- A save that the system failed: nothing but what is at the path may have changed.
abbrev pub IsFailed : Tree → Bytes → Tree × Response → Type 0
IsFailed tree path (after, response) =
    (response.status ≡ 500) × ((left : Node) × (after ≡ put_node tree path left))

written-cases :
    (tree : Tree) (path content : Bytes) (failed : Option (Bytes × Node))
    → IsFailed tree path (saved (written tree path content failed))
      ⊎ IsSaved tree path content (saved (written tree path content failed))
unfolding saved written json_error
written-cases tree path content none = inr (refl, refl)
written-cases tree path content (some (message, left)) = inl (refl, (left, refl))

-- What a save of a content may do for a path that passed the checks, or was refused by them.
abbrev Outcome : Tree → Bytes → Result Bytes → Tree × Response → Type 0
Outcome tree content r after =
    IsRefused tree after
    ⊎ ((p : Bytes) × (r ≡ ok p) × (IsFailed tree p after ⊎ IsSaved tree p content after))

save_confined-Outcome :
    (os : Os) (tree : Tree) (content : Bytes) (r : Result Bytes)
    → Outcome tree content r (save_confined os tree content r)
unfolding save_confined
save_confined-Outcome os tree content (err message) = inl (omega arith, refl)
save_confined-Outcome os tree content (ok p) =
    inr (p, refl, written-cases tree p content (os.write_error tree p))

-- PUT /api/file either answers another status than 200 and leaves the file system as it was, or it
-- touches the requested path, cleaned, and no other path; that path is then inside the workspace of
-- the request and, if one is configured, inside the root. If it touches the path, it answers 500 (the
-- write failed) or 200 with the content of the request written at the path.
pub handle_file_save-cases :
    (os : Os) (workspace_root : Bytes) (tree : Tree) (body : FileSaveRequest)
    → IsRefused tree (handle_file_save os workspace_root tree (ok body))
      ⊎ ((IsFailed tree (clean body.path) (handle_file_save os workspace_root tree (ok body))
            ⊎ IsSaved tree
                (clean body.path)
                body.content
                (handle_file_save os workspace_root tree (ok body)))
          × Within (clean body.workspace_dir) (clean body.path)
          × (workspace_root ≢ [] → Within (clean workspace_root) (clean body.path)))
unfolding handle_file_save
handle_file_save-cases os workspace_root tree body = elim (Bool-cases (bytes_eq body.path [])) [
  | inl e ↦ rw e (inl (omega arith, refl))
  | inr e ↦ elim (Bool-cases (bytes_eq body.workspace_dir [])) [
    | inl d ↦ rw (e, d) (inl (omega arith, refl))
    | inr d ↦
        rw (e, d)
          (elim (save_confined-Outcome os tree body.content
            (confine_twice workspace_root body.workspace_dir body.path)) [
              | inl h ↦ inl h
              | inr (p, inside, h) ↦
                  let (same, within, root) =
                    (confine_twice_iff workspace_root body.workspace_dir body.path p).0 inside in
                  inr (rw (← same) h, rw (← same) within, rw (← same) root)
            ])
  ]
]

wrong :
    (message path content : Bytes)
    → json_error message 400 ≡ record { status = 200; body = file_body path content }
    → ⊥
unfolding json_error
wrong message path content h = ground (arith, ap (λ (x : Response). x.status) h)

read_confined-cases :
    (os : Os) (tree : Tree) (r : Result Bytes) (path content : Bytes)
    → read_confined os tree r ≡ record { status = 200; body = file_body path content }
    → (r ≡ ok path) × (tree path ≡ file content)
unfolding read_confined
read_confined-cases os tree (err message) path content h =
    ground (arith, ap (λ (x : Response). x.status) h)
read_confined-cases os tree (ok p) path content h = ground arith

-- GET /api/file gives out a content only if it is that of the file at the requested path, cleaned,
-- and this path is inside the workspace of the request and, if one is configured, inside the root.
pub handle_file_read_confined :
    (os : Os) (workspace_root : Bytes) (tree : Tree) (raw_path raw_root path content : Bytes)
    → handle_file_read os workspace_root tree raw_path raw_root
      ≡ record { status = 200; body = file_body path content }
    → (path ≡ clean raw_path)
      × (tree path ≡ file content)
      × Within (clean raw_root) path
      × (workspace_root ≢ [] → Within (clean workspace_root) path)
unfolding handle_file_read
handle_file_read_confined os workspace_root tree raw_path raw_root path content h =
    elim (Bool-cases (bytes_eq raw_path [])) [
      | inl e ↦ absurd (wrong _ path content (rw e at h))
      | inr e ↦ elim (Bool-cases (bytes_eq raw_root [])) [
        | inl d ↦ absurd (wrong _ path content (rw (e, d) at h))
        | inr d ↦
            let (inside, holds) =
              read_confined-cases os tree (confine_twice workspace_root raw_root raw_path) path
                content (rw (e, d) at h) in
            let (same, within, root) =
              (confine_twice_iff workspace_root raw_root raw_path path).0 inside in
            (same, holds, within, root)
      ]
    ]
