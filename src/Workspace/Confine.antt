-- ===== src/Workspace/Confine.antt =====
-- ConfineToDir lets a path through exactly when it is inside the directory.
use mathlib.Core.List.{nil≢cons}
use tfai_go.Base.{
  err, Result, ok, refl, ◌∙◌, bytes_eq, sym, codes, ◌≡◌, ◌≢◌, inl, inr, ◌↔◌, true, [], ◌∷◌, ◌++◌,
  Bytes, has_prefix, All, split, Bool-cases,
}
use tfai_go.Path.{separator, dotdot, is_abs, clean}
use tfai_go.Path.Prefix.{Within, has_prefix-Within, Within-has_prefix}
use tfai_go.Path.Normal.{clean_idem}
use tfai_go.Path.Rooted.{clean-head, split-clean}
use tfai_go.Workspace.{confine_rest, confine_twice, confine_to_root, confine_to_dir}

-- ConfineToDir returns a path exactly when that path is the target, cleaned, and it is the cleaned
-- root or goes on behind the cleaned root and a separator.
pub confine_to_dir_iff :
    (root target p : Bytes)
    → (confine_to_dir root target ≡ ok p) ↔ ((p ≡ clean target) × Within (clean root) p)
unfolding confine_to_dir
confine_to_dir_iff root target p = (sound, complete)
  where
    sound : confine_to_dir root target ≡ ok p → (p ≡ clean target) × Within (clean root) p
    sound h =
        elim (Bool-cases
          (has_prefix (clean target ++ separator ∷ []) (clean root ++ separator ∷ []))) [
            | inl e ↦
                let same : p ≡ clean target = cc (rw e at h) in
                (same, rw same (has_prefix-Within (clean target) (clean root) e))
            | inr e ↦ cc (rw e at h)
          ]

    complete : (p ≡ clean target) × Within (clean root) p → confine_to_dir root target ≡ ok p
    complete (e, w) = rw (Within-has_prefix (clean target) (clean root) (rw e at w)) (cc)

-- A target that is absolute, once ConfineToDir lets it through, has no element `..` left, so the
-- prefix says where the file is.
pub confine_to_dir_no_dotdot :
    (root target p : Bytes)
    → is_abs target ≡ true
    → confine_to_dir root target ≡ ok p
    → All (λ e. e ≢ dotdot) (split p separator)
confine_to_dir_no_dotdot root target p a h =
    rw ((confine_to_dir_iff root target p).0 h).0 (split-clean target a)

-- Where the root is the root of the file system, the test asks for two separators: only the root
-- itself gets through, and every file below it is refused.
pub confine_to_dir_slash :
    (root target p : Bytes)
    → clean root ≡ codes "/"
    → confine_to_dir root target ≡ ok p
    → p ≡ codes "/"
confine_to_dir_slash root target p slash h = elim ((confine_to_dir_iff root target p).0 h).1 [
  | inl e ↦ e ∙ slash
  | inr (rest, e) ↦ absurd (clean-head target rest (only_double rest e))
]
  where
    only_double :
        (rest : Bytes)
        → p ≡ clean root ++ separator ∷ rest
        → clean target ≡ separator ∷ separator ∷ rest
    only_double rest e = sym ((confine_to_dir_iff root target p).0 h).0 ∙ e ∙ rw slash

pub confine_to_root_iff :
    (workspace_root inside p : Bytes)
    → clean inside ≡ inside
    → (confine_to_root workspace_root inside ≡ ok p)
      ↔ ((p ≡ inside) × (workspace_root ≢ [] → Within (clean workspace_root) p))
unfolding confine_to_root bytes_eq
confine_to_root_iff [] inside p cleaned = (λ h. (cc, λ ne. absurd (ne refl)), λ h. cc (h.0))
confine_to_root_iff (c ∷ root) inside p cleaned = (
  λ h. let both = (confine_to_dir_iff (c ∷ root) inside p).0 h in (both.0 ∙ cleaned, λ _. both.1),
  λ (e, w). (confine_to_dir_iff (c ∷ root) inside p).1 (e ∙ sym cleaned, w (λ k. nil≢cons (sym k))),
)

-- The two confinements of a handler let a path through exactly when it is the requested one,
-- cleaned, and is inside the request's workspace and, if a root is configured, inside that too.
pub confine_twice_iff :
    (workspace_root workspace_dir path p : Bytes)
    → (confine_twice workspace_root workspace_dir path ≡ ok p) ↔ (
        (p ≡ clean path)
        × Within (clean workspace_dir) p
        × (workspace_root ≢ [] → Within (clean workspace_root) p))
unfolding confine_twice
confine_twice_iff workspace_root workspace_dir path p =
    (λ h. sound (confine_to_dir workspace_dir path) refl h, complete)
  where
    cleaned : clean (clean path) ≡ clean path
    cleaned = clean_idem path

    sound :
        (r : Result Bytes)
        → confine_to_dir workspace_dir path ≡ r
        → confine_rest workspace_root r ≡ ok p
        → (p ≡ clean path)
          × Within (clean workspace_dir) p
          × (workspace_root ≢ [] → Within (clean workspace_root) p)
    sound (err message) e k = cc
    sound (ok inside) e k =
        let (same, within) = (confine_to_dir_iff workspace_dir path inside).0 e in
        let (here, root) = (confine_to_root_iff workspace_root inside p (rw same cleaned)).0 k in
        (here ∙ same, rw here within, root)

    complete :
        (p ≡ clean path)
          × Within (clean workspace_dir) p
          × (workspace_root ≢ [] → Within (clean workspace_root) p)
        → confine_rest workspace_root (confine_to_dir workspace_dir path) ≡ ok p
    complete (e, w, root) =
        rw ((confine_to_dir_iff workspace_dir path p).1 (e, w))
          ((confine_to_root_iff workspace_root p p (rw e cleaned)).1 (refl, root))
