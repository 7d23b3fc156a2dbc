-- ===== src/Store/Order.antt =====
-- The rows of a table in their order, and what ORDER BY makes of them when it asks for the opposite order.
use Prim.Native.Nat.{zero, suc}
use mathlib.Core.List.{reverse, reverse-cons}
use tfai_go.Base.{
  suc, ◌≡◌, refl, ap, inl, inr, ℕ, Bool, false, List, [], ◌∷◌, ◌++◌, take, Bytes, bytes_eq, All,
  All-append, Bool-cases,
}
use tfai_go.Store.Last.{All-take, All-reverse}
use tfai_go.Store.{Row, of_workspace, insert_by, order_by}

module _ (R : Row → Row → Type 0) where
  -- Every row is related to those behind it.
  abbrev pub Pairs : List Row → Type 0
  Pairs [] = Unit
  Pairs (x ∷ xs) = All (R x) xs × Pairs xs

  pub Pairs-snoc : (xs : List Row) (y : Row) → Pairs xs → All (λ x. R x y) xs → Pairs (xs ++ y ∷ [])
  Pairs-snoc [] y p h = (tt, tt)
  Pairs-snoc (x ∷ xs) y (a, p) (r, h) =
      (All-append (R x) xs (y ∷ []) a (r, tt), Pairs-snoc xs y p h)

  pub Pairs-take : (n : ℕ) (xs : List Row) → Pairs xs → Pairs (take n xs)
  Pairs-take zero xs p = tt
  Pairs-take (suc n) [] p = tt
  Pairs-take (suc n) (x ∷ xs) (a, p) = (All-take (R x) n xs a, Pairs-take n xs p)

  All-of_workspace :
      (P : Row → Type 0) (w : Bytes) (xs : List Row) → All P xs → All P (of_workspace w xs)
  unfolding of_workspace
  All-of_workspace P w [] h = tt
  All-of_workspace P w (x ∷ xs) (p, h) = elim (Bool-cases (bytes_eq x.workspace w)) [
    | inl e ↦ rw e (p, All-of_workspace P w xs h)
    | inr e ↦ rw e (All-of_workspace P w xs h)
  ]

  pub Pairs-of_workspace : (w : Bytes) (xs : List Row) → Pairs xs → Pairs (of_workspace w xs)
  unfolding of_workspace
  Pairs-of_workspace w [] p = tt
  Pairs-of_workspace w (x ∷ xs) (a, p) = elim (Bool-cases (bytes_eq x.workspace w)) [
    | inl e ↦ rw e (All-of_workspace (R x) w xs a, Pairs-of_workspace w xs p)
    | inr e ↦ rw e (Pairs-of_workspace w xs p)
  ]

pub Pairs-reverse :
    (R : Row → Row → Type 0) (xs : List Row) → Pairs R xs → Pairs (λ x y. R y x) (reverse xs)
Pairs-reverse R [] p = tt
Pairs-reverse R (x ∷ xs) (a, p) =
    rw (reverse-cons x xs)
      (Pairs-snoc (λ x y. R y x) (reverse xs) x (Pairs-reverse R xs p) (All-reverse (R x) xs a))

-- The first of the two does not come before the second.
abbrev pub NotBefore : (Row → Row → Bool) → Row → Row → Type 0
NotBefore before x y = before x y ≡ false

insert_by_last :
    (before : Row → Row → Bool) (x : Row) (ys : List Row)
    → All (NotBefore before x) ys
    → insert_by before x ys ≡ ys ++ x ∷ []
unfolding insert_by
insert_by_last before x [] h = refl
insert_by_last before x (y ∷ ys) (n, h) = rw n (ap (λ r. y ∷ r) (insert_by_last before x ys h))

-- A list that stands in the opposite order is turned around.
pub order_by-reverse :
    (before : Row → Row → Bool) (xs : List Row)
    → Pairs (NotBefore before) xs
    → order_by before xs ≡ reverse xs
unfolding order_by
order_by-reverse before [] p = refl
order_by-reverse before (x ∷ xs) (a, p) =
    rw (order_by-reverse before xs p, reverse-cons x xs)
      (insert_by_last before x (reverse xs) (All-reverse (NotBefore before x) xs a))
