-- ===== src/Path/Normal.antt =====
-- Clean is idempotent, and what it gives has no empty element, no `.`, and no `..` if it is rooted.
use mathlib.Core.List.{foldl, foldl-append, reverse, reverse-append}
use tfai_go.Base.{
  ◌≡◌, ◌≢◌, refl, sym, ap, ◌∙◌, ◌⊎◌, inl, inr, Bool, true, false, List, [], ◌∷◌, ◌++◌, Bytes,
  bytes_eq, bytes_eq_iff, bytes_eq_refl, bytes_eq_sound, split, push_head, All, All-append,
  append-nil, ◌==◌, Bool-cases, arith,
}
use tfai_go.Path.{
  separator, dot, dotdot, is_abs, up, push_element, elements, join_elements, render, clean,
}

abbrev pub LacksSeparator : Bytes → Type 0
LacksSeparator = All (λ c. c ≢ separator)

-- An element that Clean keeps.
pub record IsElement (e : Bytes) : Type 0 where
  pub filled : e ≢ []
  pub not_dot : e ≢ dot
  pub one : LacksSeparator e

-- The stack of a cleaned path: `..` stands only at the front of a relative path.
abbrev pub IsNormal : Bool → List Bytes → Type 0
IsNormal rooted [] = Unit
IsNormal rooted (e ∷ stack) =
    IsElement e
    × ((e ≢ dotdot) ⊎ ((rooted ≡ false) × (e ≡ dotdot) × All (λ f. f ≡ dotdot) stack))
    × IsNormal rooted stack

split-LacksSeparator : (p : Bytes) → All LacksSeparator (split p separator)
unfolding split
split-LacksSeparator [] = (tt, tt)
split-LacksSeparator (c ∷ p) = elim (Bool-cases (c == separator)) [
  | inl e ↦ rw e (tt, split-LacksSeparator p)
  | inr e ↦ rw e (push (split p separator) (ground arith) (split-LacksSeparator p))
]
  where
    push :
        (ps : List Bytes)
        → c ≢ separator
        → All LacksSeparator ps
        → All LacksSeparator (push_head c ps)
    push [] ne h = ((ne, tt), tt)
    push (q ∷ ps) ne (hq, h) = ((ne, hq), h)

dotdot-IsElement : IsElement dotdot
dotdot-IsElement = record { filled = cc; not_dot = cc; one = omega arith }

up-IsNormal :
    (rooted : Bool) (stack : List Bytes) → IsNormal rooted stack → IsNormal rooted (up rooted stack)
unfolding up
up-IsNormal true [] h = tt
up-IsNormal false [] h = (dotdot-IsElement, inr (refl, refl, tt), tt)
up-IsNormal rooted (top ∷ stack) (el, inl ne, h) = elim (Bool-cases (bytes_eq top dotdot)) [
  | inl e ↦ absurd (ne (bytes_eq_sound top dotdot e))
  | inr e ↦ rw e h
]
up-IsNormal rooted (top ∷ stack) (el, inr (r, d, all), h) =
    rw (d, bytes_eq_refl dotdot)
      (dotdot-IsElement, inr (r, refl, (refl, all)), (dotdot-IsElement, inr (r, refl, all), h))

push_element-IsNormal :
    (rooted : Bool) (stack : List Bytes) (e : Bytes)
    → LacksSeparator e
    → IsNormal rooted stack
    → IsNormal rooted (push_element rooted stack e)
unfolding push_element
push_element-IsNormal rooted stack e one h = elim (Bool-cases (bytes_eq e [])) [
  | inl b ↦ rw b h
  | inr empty ↦ elim (Bool-cases (bytes_eq e dot)) [
    | inl b ↦ rw (empty, b) h
    | inr d ↦ elim (Bool-cases (bytes_eq e dotdot)) [
      | inl b ↦ rw (empty, d, b) (up-IsNormal rooted stack h)
      | inr dd ↦
          rw (empty, d, dd)
            (
              record { filled = differs e [] empty; not_dot = differs e dot d; one = one },
              inl (differs e dotdot dd),
              h,
            )
    ]
  ]
]
  where
    differs : (s t : Bytes) → bytes_eq s t ≡ false → s ≢ t
    differs s t b e = ground (arith, bytes_eq_iff s t)

elements_from-IsNormal :
    (rooted : Bool) (stack parts : List Bytes)
    → All LacksSeparator parts
    → IsNormal rooted stack
    → IsNormal rooted (foldl (push_element rooted) stack parts)
elements_from-IsNormal rooted stack [] one h = h
elements_from-IsNormal rooted stack (e ∷ parts) (he, one) h =
    elements_from-IsNormal rooted (push_element rooted stack e) parts one
      (push_element-IsNormal rooted stack e he h)

pub elements-IsNormal : (p : Bytes) → IsNormal (is_abs p) (elements p)
unfolding elements
elements-IsNormal p =
    elements_from-IsNormal (is_abs p) [] (split p separator) (split-LacksSeparator p) tt

-- An element on top of a normal stack got there by its own push.
push_element_top :
    (rooted : Bool) (e : Bytes) (stack : List Bytes)
    → IsNormal rooted (e ∷ stack)
    → push_element rooted stack e ≡ e ∷ stack
unfolding push_element up bytes_eq
push_element_top rooted e stack (el, inl ne, h) =
    ground
      (arith, el.filled, el.not_dot, bytes_eq_iff e [], bytes_eq_iff e dot, bytes_eq_iff e dotdot)
push_element_top rooted e [] (el, inr (r, d, all), h) = rw (d, r) refl
push_element_top rooted e (f ∷ stack) (el, inr (r, d, (hf, all)), h) = rw (d, hf) refl

-- Pushing the elements of a normal stack, bottom first, builds it again.
rebuild :
    (rooted : Bool) (stack : List Bytes)
    → IsNormal rooted stack
    → foldl (push_element rooted) [] (reverse stack) ≡ stack
rebuild rooted [] h = refl
rebuild rooted (e ∷ stack) h = rw (reverse-append (e ∷ []) stack) (
    rw (foldl-append (push_element rooted) [] (reverse stack) (e ∷ []))
      (rw (rebuild rooted stack h.2) (push_element_top rooted e stack h)))

split-one : (e : Bytes) → LacksSeparator e → split e separator ≡ e ∷ []
unfolding split
split-one [] h = refl
split-one (c ∷ e) (ne, h) = rw (split-one e h) (ground arith)

pub split-append :
    (e p : Bytes) → LacksSeparator e → split (e ++ separator ∷ p) separator ≡ e ∷ split p separator
unfolding split
split-append [] p h = refl
split-append (c ∷ e) p (ne, h) = rw (split-append e p h) (ground arith)

pub split-join_elements :
    (e : Bytes) (es : List Bytes)
    → LacksSeparator e
    → All LacksSeparator es
    → split (join_elements (e ∷ es)) separator ≡ e ∷ es
unfolding join_elements
split-join_elements e [] h _ = split-one e h
split-join_elements e (f ∷ es) h (hf, hes) =
    split-append e (join_elements (f ∷ es)) h ∙ ap (λ ps. e ∷ ps) (split-join_elements f es hf hes)

pub All-reverse :
    (rooted : Bool) (stack : List Bytes) → IsNormal rooted stack → All IsElement (reverse stack)
All-reverse rooted [] h = tt
All-reverse rooted (e ∷ stack) (el, _, h) =
    rw (reverse-append (e ∷ []) stack)
      (All-append IsElement (reverse stack) (e ∷ []) (All-reverse rooted stack h) (el, tt))

pub All-one : (es : List Bytes) → All IsElement es → All LacksSeparator es
All-one [] h = tt
All-one (e ∷ es) (el, h) = (el.one, All-one es h)

-- The elements of a printed path are the printed ones.
foldl-render :
    (rooted : Bool) (es : List Bytes)
    → All IsElement es
    → foldl (push_element rooted) [] (split (render rooted es) separator)
      ≡ foldl (push_element rooted) [] es
unfolding render bytes_eq
foldl-render true [] h = unfold split push_element join_elements in refl
foldl-render false [] h = unfold split push_element in refl
foldl-render true (e ∷ es) (el, h) =
    rw (split-append [] (join_elements (e ∷ es)) tt)
      (rw (split-join_elements e es el.one (All-one es h)) (unfold push_element in refl))
foldl-render false (e ∷ es) (el, h) = rw (split-join_elements e es el.one (All-one es h)) refl

is_abs-append : (e p : Bytes) → IsElement e → is_abs (e ++ p) ≡ false
unfolding is_abs
is_abs-append [] p el = absurd (el.filled refl)
is_abs-append (c ∷ e) p el = ground (arith, el.one)

is_abs-render :
    (rooted : Bool) (es : List Bytes) → All IsElement es → is_abs (render rooted es) ≡ rooted
unfolding render
is_abs-render true es h = unfold is_abs in refl
is_abs-render false [] h = unfold is_abs in refl
is_abs-render false (e ∷ []) (el, h) =
    unfold join_elements in (rw append-nil at (is_abs-append e [] el))
is_abs-render false (e ∷ f ∷ es) (el, h) =
    unfold join_elements in is_abs-append e (separator ∷ join_elements (f ∷ es)) el

module _ (rooted : Bool) (stack : List Bytes) (h : IsNormal rooted stack) where
  is_abs-render_stack : is_abs (render rooted (reverse stack)) ≡ rooted
  is_abs-render_stack = is_abs-render rooted (reverse stack) (All-reverse rooted stack h)

  elements-render : elements (render rooted (reverse stack)) ≡ stack
  unfolding elements
  elements-render =
      rw is_abs-render_stack
        (foldl-render rooted (reverse stack) (All-reverse rooted stack h) ∙ rebuild rooted stack h)

pub is_abs-clean : (p : Bytes) → is_abs (clean p) ≡ is_abs p
unfolding clean
is_abs-clean p = is_abs-render_stack (is_abs p) (elements p) (elements-IsNormal p)

pub elements-clean : (p : Bytes) → elements (clean p) ≡ elements p
unfolding clean
elements-clean p = elements-render (is_abs p) (elements p) (elements-IsNormal p)

pub clean-render : (p : Bytes) → clean p ≡ render (is_abs p) (reverse (elements p))
unfolding clean
clean-render p = refl

-- Cleaning a path again changes nothing.
pub clean_idem : (p : Bytes) → clean (clean p) ≡ clean p
clean_idem p = clean-render (clean p) ∙ rw (is_abs-clean p, elements-clean p) (sym (clean-render p))
