-- ===== src/Path/Join.antt =====
-- filepath.Join of a cleaned directory and the name of a file.
use mathlib.Core.List.{foldl, foldl-append, reverse, reverse-cons}
use tfai_go.Base.{
  ◌≡◌, ◌≢◌, ◌∙◌, refl, sym, ap, inl, inr, true, List, [], ◌∷◌, ◌++◌, append_assoc, Bytes, codes,
  bytes_eq_nil, split, push_head, split-cons, ◌==◌, Bool-cases, ℕ,
}
use tfai_go.Path.{separator, is_abs, push_element, elements, join_elements, render, clean, join}

-- A name that is one element, not `.` and not `..`.
pub record IsName (name : Bytes) : Type 0 where
  pub filled : name ≢ []
  pub one : split name separator ≡ name ∷ []
  pub pushed : (stack : List Bytes) → push_element true stack name ≡ name ∷ stack

push_head-append :
    (c : ℕ) (ps qs xs : List Bytes) (x : Bytes)
    → ps ≡ x ∷ xs
    → push_head c (ps ++ qs) ≡ push_head c ps ++ qs
unfolding push_head
push_head-append c [] qs xs x h = cc
push_head-append c (p ∷ ps) qs xs x h = refl

split-append :
    (p q : Bytes) → split (p ++ separator ∷ q) separator ≡ split p separator ++ split q separator
unfolding split
split-append [] q = refl
split-append (c ∷ p) q = elim (Bool-cases (c == separator)) [
  | inl e ↦ rw e (ap (λ r. [] ∷ r) (split-append p q))
  | inr e ↦
      let (x, xs, h) = split-cons separator p in
      rw e (
        ap (push_head c) (split-append p q)
        ∙ push_head-append c (split p separator) (split q separator) xs x h)
]

is_abs-append : (p q : Bytes) → is_abs p ≡ true → is_abs (p ++ q) ≡ true
unfolding is_abs
is_abs-append [] q h = cc
is_abs-append (c ∷ p) q h = h

pub is_abs-filled : (p : Bytes) → is_abs p ≡ true → p ≢ []
unfolding is_abs
is_abs-filled [] h e = cc
is_abs-filled (c ∷ p) h e = cc

join_elements-snoc :
    (e : Bytes) (es : List Bytes) (name : Bytes)
    → join_elements ((e ∷ es) ++ name ∷ []) ≡ join_elements (e ∷ es) ++ separator ∷ name
unfolding join_elements
join_elements-snoc e [] name = refl
join_elements-snoc e (f ∷ es) name =
    ap (λ r. e ++ separator ∷ r) (join_elements-snoc f es name)
    ∙ sym (append_assoc e (separator ∷ join_elements (f ∷ es)) (separator ∷ name))

render-snoc :
    (es : List Bytes) (name : Bytes)
    → render true es ≢ codes "/"
    → render true (es ++ name ∷ []) ≡ render true es ++ separator ∷ name
unfolding render join_elements
render-snoc [] name ne = absurd (ne refl)
render-snoc (e ∷ es) name ne = ap (λ r. separator ∷ r) (join_elements-snoc e es name)

module _ (d name : Bytes) (abs : is_abs d ≡ true) (n : IsName name) where
  elements-append : elements (d ++ separator ∷ name) ≡ name ∷ elements d
  unfolding elements
  elements-append =
      rw (is_abs-append d (separator ∷ name) abs, abs)
        (ap (foldl (push_element true) []) (split-append d name)
          ∙ foldl-append (push_element true) [] (split d separator) (split name separator)
          ∙ ap (foldl (push_element true) (foldl (push_element true) [] (split d separator))) n.one
          ∙ n.pushed (foldl (push_element true) [] (split d separator)))

  clean-append : clean d ≡ d → d ≢ codes "/" → clean (d ++ separator ∷ name) ≡ d ++ separator ∷ name
  unfolding clean
  clean-append cleaned ne =
      let r : render true (reverse (elements d)) ≡ d =
        ap (λ b. render b (reverse (elements d))) (sym abs) ∙ cleaned in
      (ap (λ b. render b (reverse (elements (d ++ separator ∷ name))))
          (is_abs-append d (separator ∷ name) abs)
        ∙ ap (λ es. render true (reverse es)) elements-append
        ∙ ap (render true) (reverse-cons name (elements d))
        ∙ render-snoc (reverse (elements d)) name (λ k. ne (sym r ∙ k))
        ∙ ap (λ x. x ++ separator ∷ name) r)

  -- Join puts the name behind the directory and a separator.
  pub join-append : clean d ≡ d → d ≢ codes "/" → join d name ≡ d ++ separator ∷ name
  unfolding join
  join-append cleaned ne =
      rw (bytes_eq_nil d (is_abs-filled d abs), bytes_eq_nil name n.filled)
        (clean-append cleaned ne)
