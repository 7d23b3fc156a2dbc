-- ===== src/Path/Rooted.antt =====
-- What Clean makes of an absolute path: no element is `..`, and no cleaned path begins with two separators.
use mathlib.Core.List.{reverse, reverse-append}
use tfai_go.Base.{
  ◌≡◌, ◌≢◌, refl, inl, inr, true, List, [], ◌∷◌, Bytes, split, All, All-append, arith,
}
use tfai_go.Path.{separator, dotdot, is_abs, elements, join_elements, render, clean}
use tfai_go.Path.Normal.{
  IsElement, IsNormal, elements-IsNormal, split-append, split-join_elements, All-reverse, All-one,
  clean-render, is_abs-clean,
}

-- The elements of an absolute path once it is cleaned: none is empty, `.` or `..`.
pub IsNormal-true :
    (stack : List Bytes) → IsNormal true stack → All (λ e. IsElement e × (e ≢ dotdot)) stack
IsNormal-true [] h = tt
IsNormal-true (e ∷ stack) (el, inl ne, h) = ((el, ne), IsNormal-true stack h)
IsNormal-true (e ∷ stack) (el, inr (r, _, _), h) = cc

All-dotdot-reverse :
    (stack : List Bytes)
    → All (λ e. IsElement e × (e ≢ dotdot)) stack
    → All (λ e. IsElement e × (e ≢ dotdot)) (reverse stack)
All-dotdot-reverse [] h = tt
All-dotdot-reverse (e ∷ stack) (he, h) = rw (reverse-append (e ∷ []) stack) (
    All-append (λ e. IsElement e × (e ≢ dotdot)) (reverse stack) (e ∷ [])
      (All-dotdot-reverse stack h) (he, tt))

split-render :
    (es : List Bytes)
    → All (λ e. IsElement e × (e ≢ dotdot)) es
    → All (λ e. e ≢ dotdot) (split (render true es) separator)
unfolding render
split-render [] h = unfold split join_elements in (cc, (cc, tt))
split-render (e ∷ es) (he, h) = rw (split-append [] (join_elements (e ∷ es)) tt) (
    rw (split-join_elements e es he.0.one (All-one es (only_elements es h)))
      (cc, (he.1, only_names es h)))
  where
    only_elements : (fs : List Bytes) → All (λ e. IsElement e × (e ≢ dotdot)) fs → All IsElement fs
    only_elements [] k = tt
    only_elements (f ∷ fs) (hf, k) = (hf.0, only_elements fs k)

    only_names :
        (fs : List Bytes) → All (λ e. IsElement e × (e ≢ dotdot)) fs → All (λ e. e ≢ dotdot) fs
    only_names [] k = tt
    only_names (f ∷ fs) (hf, k) = (hf.1, only_names fs k)

-- An absolute path that is cleaned has no element `..`.
pub split-clean : (p : Bytes) → is_abs p ≡ true → All (λ e. e ≢ dotdot) (split (clean p) separator)
split-clean p h =
    rw (clean-render p, h)
      (split-render (reverse (elements p)) (
        All-dotdot-reverse (elements p)
          (IsNormal-true (elements p) (rw h at (elements-IsNormal p)))))

join_elements-head :
    (e rest : Bytes) (es : List Bytes) → IsElement e → join_elements (e ∷ es) ≢ separator ∷ rest
unfolding join_elements
join_elements-head [] rest es el h = el.filled refl
join_elements-head (c ∷ e) rest [] el h = ground (arith, el.one)
join_elements-head (c ∷ e) rest (f ∷ es) el h = ground (arith, el.one)

render-head :
    (es : List Bytes) (rest : Bytes)
    → All IsElement es
    → render true es ≢ separator ∷ separator ∷ rest
unfolding render
render-head [] rest h k = unfold join_elements in cc
render-head (e ∷ es) rest (el, h) k = join_elements-head e rest es el (ground arith)

-- A cleaned path does not begin with two separators.
pub clean-head : (p rest : Bytes) → clean p ≢ separator ∷ separator ∷ rest
clean-head p rest h =
    render-head (reverse (elements p)) rest
      (All-reverse (is_abs p) (elements p) (elements-IsNormal p)) (rw (clean-render p, rooted) at h)
  where
    rooted : is_abs p ≡ true
    rooted = rw (← is_abs-clean p, h) (unfold is_abs in refl)
