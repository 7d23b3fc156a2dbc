-- ===== src/Embedder/OpenAi/Filled.antt =====
-- How many slots for embeddings are filled.
use tfai_go.Base.{
  ◌≡◌, refl, ap, ℕ, zero, suc, ◌≤◌, Option, none, some, List, [], ◌∷◌, length, replicate, set,
  get_elem?, All, arith,
}

module _ {Vector : Type 0} where
  -- The slots that hold an embedding.
  abbrev pub filled : List (Option Vector) → ℕ
  filled [] = 0
  filled (none ∷ es) = filled es
  filled (some v ∷ es) = suc (filled es)

  filled-le : (es : List (Option Vector)) → filled es ≤ length es
  filled-le [] = omega arith
  filled-le (none ∷ es) = omega (arith, filled-le es)
  filled-le (some v ∷ es) = omega (arith, filled-le es)

  pub filled-replicate : (n : ℕ) (o : Option Vector) → o ≡ none → filled (replicate n o) ≡ 0
  filled-replicate zero o e = refl
  filled-replicate (suc n) o e = rw e (filled-replicate n none refl)

  pub filled-set :
      (es : List (Option Vector)) (i : ℕ) (v : Vector)
      → get_elem? es i ≡ some none
      → filled (set es i (some v)) ≡ suc (filled es)
  filled-set [] i v h = cc
  filled-set (none ∷ es) zero v h = refl
  filled-set (some w ∷ es) zero v h = cc
  filled-set (none ∷ es) (suc i) v h = filled-set es i v h
  filled-set (some w ∷ es) (suc i) v h = ap suc (filled-set es i v h)

  -- Every text has its embedding.
  abbrev pub IsGiven : Option Vector → Type 0
  IsGiven o = (v : Vector) × (o ≡ some v)

  pub filled-IsGiven : (es : List (Option Vector)) → filled es ≡ length es → All IsGiven es
  filled-IsGiven [] h = tt
  filled-IsGiven (none ∷ es) h = absurd (omega (arith, filled-le es))
  filled-IsGiven (some v ∷ es) h = ((v, refl), filled-IsGiven es (omega arith))
