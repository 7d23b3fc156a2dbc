-- ===== src/Store/Last.antt =====
-- The last elements of a list, in their order.
use Prim.Native.Nat.{zero, suc}
use mathlib.Core.List.{reverse, reverse-cons, map-append}
use tfai_go.Base.{
  All-append, All, ◌≡◌, ◌∙◌, refl, sym, ap, ℕ, List, [], ◌∷◌, ◌++◌, map, take, ℤ, pos, negsuc,
}

-- The newest elements of a list whose newest element is its last.
unfoldable pub newest {ℓ} : {A : Type ℓ} → ℤ → List A → List A
newest (pos n) xs = reverse (take n (reverse xs))
newest (negsuc n) xs = xs

module _ {A B : Type 0} (f : A → B) where
  map-take : (n : ℕ) (xs : List A) → map f (take n xs) ≡ take n (map f xs)
  map-take zero xs = refl
  map-take (suc n) [] = refl
  map-take (suc n) (x ∷ xs) = ap (λ r. f x ∷ r) (map-take n xs)

  map-reverse : (xs : List A) → map f (reverse xs) ≡ reverse (map f xs)
  map-reverse [] = refl
  map-reverse (x ∷ xs) =
      ap (map f) (reverse-cons x xs)
      ∙ map-append f (reverse xs) (x ∷ [])
      ∙ ap (λ r. r ++ f x ∷ []) (map-reverse xs)
      ∙ sym (reverse-cons (f x) (map f xs))

  pub map-newest : (n : ℤ) (xs : List A) → map f (newest n xs) ≡ newest n (map f xs)
  unfolding newest
  map-newest (pos n) xs =
      map-reverse (take n (reverse xs))
      ∙ ap reverse (map-take n (reverse xs) ∙ ap (take n) (map-reverse xs))
  map-newest (negsuc n) xs = refl

module _ {A : Type 0} (P : A → Type 0) where
  pub All-take : (n : ℕ) (xs : List A) → All P xs → All P (take n xs)
  All-take zero xs h = tt
  All-take (suc n) [] h = tt
  All-take (suc n) (x ∷ xs) (p, h) = (p, All-take n xs h)

  pub All-reverse : (xs : List A) → All P xs → All P (reverse xs)
  All-reverse [] h = tt
  All-reverse (x ∷ xs) (p, h) =
      rw (reverse-cons x xs) (All-append P (reverse xs) (x ∷ []) (All-reverse xs h) (p, tt))

  pub All-newest : (n : ℤ) (xs : List A) → All P xs → All P (newest n xs)
  unfolding newest
  All-newest (pos n) xs h =
      All-reverse (take n (reverse xs)) (All-take n (reverse xs) (All-reverse xs h))
  All-newest (negsuc n) xs h = h
