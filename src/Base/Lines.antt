-- ===== src/Base/Lines.antt =====
-- Parts of a byte string at a separator: strings.TrimRight of one byte, strings.Join of one byte, and
-- how they and strings.Split keep what holds of the bytes.
use Prim.Native.Nat.{ℕ}
use mathlib.Core.Path.{◌∙◌, ◌≡◌, refl, ap}
use mathlib.Core.Logic.{◌≢◌, inl, inr}
use mathlib.Core.List.{List, [], ◌∷◌, ◌++◌}
use native.Mathlib.Omega.{arith}
use tfai_go.Base.Tests.{◌==◌, if◌then◌else◌, Bool-cases}
use tfai_go.Base.Lists.{All}
use tfai_go.Base.Text.{Bytes, split, push_head}

-- strings.TrimRight(s, string(c))
pub trimmed : ℕ → ℕ → Bytes → Bytes
trimmed c d [] = if d == c then [] else d ∷ []
trimmed c d (e ∷ s) = d ∷ e ∷ s

unfoldable pub trim_right_byte : ℕ → Bytes → Bytes
unfolding trimmed
trim_right_byte c [] = []
trim_right_byte c (d ∷ s) = trimmed c d (trim_right_byte c s)

-- strings.Join(parts, string(sep))
unfoldable pub join_with : ℕ → List Bytes → Bytes
join_with sep [] = []
join_with sep (p ∷ []) = p
join_with sep (p ∷ q ∷ ps) = p ++ sep ∷ join_with sep (q ∷ ps)

pub split-cons : (sep : ℕ) (s : Bytes) → (p : Bytes) × (ps : List Bytes) × (split s sep ≡ p ∷ ps)
unfolding split push_head
split-cons sep [] = ([], [], refl)
split-cons sep (c ∷ s) = elim (Bool-cases (c == sep)) [
  | inl e ↦ ([], split s sep, rw e refl)
  | inr e ↦ let (p, ps, h) = split-cons sep s in (c ∷ p, ps, rw e (rw h refl))
]

join_with-push_head :
    (c sep : ℕ) (ps : List Bytes) → join_with sep (push_head c ps) ≡ c ∷ join_with sep ps
unfolding join_with push_head
join_with-push_head c sep [] = refl
join_with-push_head c sep (p ∷ []) = refl
join_with-push_head c sep (p ∷ q ∷ ps) = refl

join_with-nil :
    (sep : ℕ) (ps qs : List Bytes) (q : Bytes)
    → ps ≡ q ∷ qs
    → join_with sep ([] ∷ ps) ≡ sep ∷ join_with sep ps
unfolding join_with
join_with-nil sep [] qs q h = cc
join_with-nil sep (p ∷ ps) qs q h = refl

pub join_with-split : (sep : ℕ) (s : Bytes) → join_with sep (split s sep) ≡ s
unfolding split join_with
join_with-split sep [] = refl
join_with-split sep (c ∷ s) = elim (Bool-cases (c == sep)) [
  | inl e ↦
      let (p, ps, h) = split-cons sep s in
      rw e (join_with-nil sep (split s sep) ps p h ∙ ground (arith, join_with-split sep s))
  | inr e ↦ rw e (join_with-push_head c sep (split s sep) ∙ ap (λ r. c ∷ r) (join_with-split sep s))
]

module _ {κ} (P : ℕ → Type κ) where
  trimmed-All : (c d : ℕ) (s : Bytes) → P d → All P s → All P (trimmed c d s)
  unfolding trimmed
  trimmed-All c d [] p h = elim (Bool-cases (d == c)) [ inl e ↦ rw e tt | inr e ↦ rw e (p, tt) ]
  trimmed-All c d (e ∷ s) p h = (p, h)

  pub trim_right_byte-All : (c : ℕ) (s : Bytes) → All P s → All P (trim_right_byte c s)
  unfolding trim_right_byte
  trim_right_byte-All c [] h = tt
  trim_right_byte-All c (d ∷ s) (p, h) = trimmed-All c d _ p (trim_right_byte-All c s h)

  push_head-All :
      (c sep : ℕ) (ps : List Bytes)
      → P c
      → c ≢ sep
      → All (All (λ d. P d × (d ≢ sep))) ps
      → All (All (λ d. P d × (d ≢ sep))) (push_head c ps)
  unfolding push_head
  push_head-All c sep [] p ne h = (((p, ne), tt), tt)
  push_head-All c sep (q ∷ ps) p ne (hq, h) = (((p, ne), hq), h)

  pub split-All : (sep : ℕ) (s : Bytes) → All P s → All (All (λ d. P d × (d ≢ sep))) (split s sep)
  unfolding split
  split-All sep [] h = (tt, tt)
  split-All sep (c ∷ s) (p, h) = elim (Bool-cases (c == sep)) [
    | inl e ↦ rw e (tt, split-All sep s h)
    | inr e ↦ rw e (push_head-All c sep _ p (ground arith) (split-All sep s h))
  ]
