-- ===== src/Commands/Run/Held.antt =====
-- How often a run acquires and releases a resource.
use tfai_go.Base.{◌≡◌, ℕ, ◌+◌, Option, none, some, List, [], ◌∷◌, ◌++◌, ◌==◌, if◌then◌else◌, arith}
use tfai_go.Commands.Run.{
  Resource, qdrant_connection, probe_connection, history_database, trace_handler, Effect, acquire,
  release, asks, serves, Run, holding, keeping,
}

abbrev tag : Resource → ℕ
tag qdrant_connection = 0
tag probe_connection = 1
tag history_database = 2
tag trace_handler = 3

abbrev pub is_same : Resource → Resource → ℕ
is_same q r = if tag q == tag r then 1 else 0

-- One of the resource `q`, if one of the kind `r` is opened and that is its kind.
abbrev pub opened : {A : Type 0} → Resource → Resource → Option A → ℕ
opened q r none = 0
opened q r (some a) = is_same q r

module _ {Model : Type 0} (q : Resource) where
  abbrev pub acquired : List (Effect Model) → ℕ
  acquired [] = 0
  acquired (acquire r ∷ effects) = is_same q r + acquired effects
  acquired (release r ∷ effects) = acquired effects
  acquired (asks parts query ∷ effects) = acquired effects
  acquired (serves parts probes addr key root ∷ effects) = acquired effects

  abbrev pub released : List (Effect Model) → ℕ
  released [] = 0
  released (acquire r ∷ effects) = released effects
  released (release r ∷ effects) = is_same q r + released effects
  released (asks parts query ∷ effects) = released effects
  released (serves parts probes addr key root ∷ effects) = released effects

  -- The run acquires the resource so many times more often than it releases it.
  abbrev pub Leaves : ℕ → Run Model → Type 0
  Leaves n run = acquired run.0 ≡ released run.0 + n

  acquired-append : (xs ys : List (Effect Model)) → acquired (xs ++ ys) ≡ acquired xs + acquired ys
  acquired-append [] ys = omega arith
  acquired-append (acquire r ∷ xs) ys = omega (arith, acquired-append xs ys)
  acquired-append (release r ∷ xs) ys = acquired-append xs ys
  acquired-append (asks parts query ∷ xs) ys = acquired-append xs ys
  acquired-append (serves parts probes addr key root ∷ xs) ys = acquired-append xs ys

  released-append : (xs ys : List (Effect Model)) → released (xs ++ ys) ≡ released xs + released ys
  released-append [] ys = omega arith
  released-append (acquire r ∷ xs) ys = released-append xs ys
  released-append (release r ∷ xs) ys = omega (arith, released-append xs ys)
  released-append (asks parts query ∷ xs) ys = released-append xs ys
  released-append (serves parts probes addr key root ∷ xs) ys = released-append xs ys

  pub holding-Leaves :
      {A : Type 0} (r : Resource) (a : Option A) (run : Run Model) (n : ℕ)
      → Leaves n run
      → Leaves n (holding r a run)
  unfolding holding
  holding-Leaves r none run n h = h
  holding-Leaves r (some a) (effects, error) n h =
      omega (
        arith,
        h,
        acquired-append effects (release r ∷ []),
        released-append effects (release r ∷ []),
      )

  pub keeping-Leaves :
      {A : Type 0} (r : Resource) (a : Option A) (run : Run Model)
      → Leaves 0 run
      → Leaves (opened q r a) (keeping r a run)
  unfolding keeping
  keeping-Leaves r none run h = h
  keeping-Leaves r (some a) (effects, error) h = omega (arith, h)
