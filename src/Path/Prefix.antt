-- ===== src/Path/Prefix.antt =====
-- The prefix test that stands for "inside the directory": with a separator behind both paths.
use tfai_go.Base.{
  false, ◌≡◌, refl, ◌⊎◌, inl, inr, true, [], ◌∷◌, ◌++◌, append_assoc, append-nil, Bytes, has_prefix,
  has_prefix-append, arith,
}
use tfai_go.Path.{separator}

-- The path is the directory, or it goes on behind the directory and a separator.
abbrev pub Within : Bytes → Bytes → Type 0
Within root path = (path ≡ root) ⊎ ((rest : Bytes) × (path ≡ root ++ separator ∷ rest))

pub has_prefix-Within :
    (path root : Bytes)
    → has_prefix (path ++ separator ∷ []) (root ++ separator ∷ []) ≡ true
    → Within root path
unfolding has_prefix
has_prefix-Within [] [] h = inl refl
has_prefix-Within (c ∷ path) [] h = inr (path, ground arith)
has_prefix-Within [] (d ∷ []) h = ground arith
has_prefix-Within [] (d ∷ e ∷ root) h = ground arith
has_prefix-Within (c ∷ path) (d ∷ root) h = elim (has_prefix-Within path root (ground arith)) [
  | inl e ↦ inl (ground arith)
  | inr (rest, e) ↦ inr (rest, ground arith)
]

regroup :
    (root rest : Bytes)
    → (root ++ separator ∷ rest) ++ separator ∷ []
      ≡ (root ++ separator ∷ []) ++ (rest ++ separator ∷ [])
regroup root rest = simp append_assoc

pub Within-has_prefix :
    (path root : Bytes)
    → Within root path
    → has_prefix (path ++ separator ∷ []) (root ++ separator ∷ []) ≡ true
Within-has_prefix path root (inl e) =
    rw e (rw append-nil at (has_prefix-append (root ++ separator ∷ []) []))
Within-has_prefix path root (inr (rest, e)) =
    rw e
      (rw (regroup root rest) (has_prefix-append (root ++ separator ∷ []) (rest ++ separator ∷ [])))

pub Within-refused :
    (path root : Bytes)
    → has_prefix (path ++ separator ∷ []) (root ++ separator ∷ []) ≡ false
    → ¬ Within root path
Within-refused path root h w = cc (h, Within-has_prefix path root w)
