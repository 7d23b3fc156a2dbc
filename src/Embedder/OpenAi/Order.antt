-- ===== src/Embedder/OpenAi/Order.antt =====
-- The embeddings are parallel to the texts.
use tfai_go.Base.{
  ◌≡◌, ◌≢◌, refl, ap, ◌∙◌, sym, inl, inr, ℕ, zero, suc, ◌+◌, ◌<◌, Option, none, some, List, [], ◌∷◌,
  Bytes, length, replicate, set, get_elem?, length-set, length-replicate, Result, ok, err, pos_part,
  is_neg, ltb, leb, ◌||◌, ◌==◌, Bool-cases, All, arith,
}
use tfai_go.Embedder.{OpenAiConfig}
use tfai_go.Embedder.OpenAi.{
  Request, Datum, EmbedResponse, place, embeddings_of, embed_request, embed,
}
use tfai_go.Embedder.OpenAi.Filled.{filled, filled-replicate, filled-set, IsGiven, filled-IsGiven}

get_elem?-set :
    {A : Type 0} (xs : List A) (i : ℕ) (v : A) → i < length xs → get_elem? (set xs i v) i ≡ some v
get_elem?-set [] i v h = absurd (omega arith)
get_elem?-set (x ∷ xs) zero v h = refl
get_elem?-set (x ∷ xs) (suc i) v h = get_elem?-set xs i v (omega arith)

get_elem?-set_other :
    {A : Type 0} (xs : List A) (i j : ℕ) (v : A) → j ≢ i → get_elem? (set xs i v) j ≡ get_elem? xs j
get_elem?-set_other [] i j v h = refl
get_elem?-set_other (x ∷ xs) zero zero v h = absurd (h refl)
get_elem?-set_other (x ∷ xs) zero (suc j) v h = refl
get_elem?-set_other (x ∷ xs) (suc i) zero v h = refl
get_elem?-set_other (x ∷ xs) (suc i) (suc j) v h = get_elem?-set_other xs i j v (λ e. h (ap suc e))

module _ {Vector : Type 0} where
  -- No item has the index.
  abbrev pub Lacks : ℕ → List (Datum Vector) → Type 0
  Lacks i ds = All (λ d. i ≢ pos_part d.index) ds

  -- No two items have the same index.
  abbrev pub IsDistinct : List (Datum Vector) → Type 0
  IsDistinct [] = Unit
  IsDistinct (d ∷ ds) = Lacks (pos_part d.index) ds × IsDistinct ds

  -- What the loop needs of its first item, and what it then does.
  place-cons :
      (n : ℕ) (d : Datum Vector) (ds : List (Datum Vector)) (es r : List (Option Vector))
      → place n (d ∷ ds) es ≡ ok r
      → (pos_part d.index < n) × (place n ds (set es (pos_part d.index) (some d.embedding)) ≡ ok r)
  unfolding place
  place-cons n d ds es r h = elim (Bool-cases (is_neg d.index)) [
    | inl e ↦ cc (rw e at h)
    | inr e ↦ elim (Bool-cases (leb n (pos_part d.index))) [
      | inl k ↦ cc (rw (e, k) at h)
      | inr k ↦ (ground arith, rw (e, k) at h)
    ]
  ]

  place-kept :
      (n i : ℕ) (ds : List (Datum Vector)) (es r : List (Option Vector))
      → Lacks i ds
      → place n ds es ≡ ok r
      → get_elem? r i ≡ get_elem? es i
  unfolding place
  place-kept n i [] es r lacks h =
      ap (λ (l : Result (List (Option Vector))). get_elem? (list_of l) i) (sym h)
    where
      list_of : Result (List (Option Vector)) → List (Option Vector)
      list_of (ok l) = l
      list_of (err message) = []
  place-kept n i (d ∷ ds) es r (ne, lacks) h =
      place-kept n i ds (set es (pos_part d.index) (some d.embedding)) r lacks
        (place-cons n d ds es r h).1
      ∙ get_elem?-set_other es (pos_part d.index) i (some d.embedding) ne

  place-length :
      (n : ℕ) (ds : List (Datum Vector)) (es r : List (Option Vector))
      → place n ds es ≡ ok r
      → length r ≡ length es
  unfolding place
  place-length n [] es r h = ap length_of (sym h)
    where
      length_of : Result (List (Option Vector)) → ℕ
      length_of (ok l) = length l
      length_of (err message) = 0
  place-length n (d ∷ ds) es r h =
      place-length n ds (set es (pos_part d.index) (some d.embedding)) r
        (place-cons n d ds es r h).1
      ∙ length-set es (pos_part d.index) (some d.embedding)

  -- Every item stands at its index.
  abbrev pub IsPlaced : List (Option Vector) → List (Datum Vector) → Type 0
  IsPlaced es ds = All (λ d. get_elem? es (pos_part d.index) ≡ some (some d.embedding)) ds

  place-IsPlaced :
      (n : ℕ) (ds : List (Datum Vector)) (es r : List (Option Vector))
      → length es ≡ n
      → IsDistinct ds
      → place n ds es ≡ ok r
      → IsPlaced r ds
  place-IsPlaced n [] es r same distinct h = tt
  place-IsPlaced n (d ∷ ds) es r same (lacks, distinct) h =
      let (small, rest) = place-cons n d ds es r h in
      let next = set es (pos_part d.index) (some d.embedding) in
      (
        place-kept n (pos_part d.index) ds next r lacks rest
            ∙ get_elem?-set es (pos_part d.index) (some d.embedding) (rw same small),
        place-IsPlaced n ds next r (length-set es (pos_part d.index) (some d.embedding) ∙ same)
            distinct rest,
      )

  -- No slot that an item is meant for holds an embedding yet.
  abbrev IsFree : List (Option Vector) → List (Datum Vector) → Type 0
  IsFree es ds =
      All (λ d. pos_part d.index < length es → get_elem? es (pos_part d.index) ≡ some none) ds

  replicate-IsFree : (n : ℕ) (ds : List (Datum Vector)) → IsFree (replicate n none) ds
  replicate-IsFree n [] = tt
  replicate-IsFree n (d ∷ ds) = (by_index n (pos_part d.index), replicate-IsFree n ds)
    where
      by_index :
          (k i : ℕ)
          → i < length (replicate {A = Option Vector} k none)
          → get_elem? (replicate {A = Option Vector} k none) i ≡ some none
      by_index zero i h = absurd (omega arith)
      by_index (suc k) zero h = refl
      by_index (suc k) (suc i) h = by_index k i (omega arith)

  set-IsFree :
      (es : List (Option Vector)) (i : ℕ) (v : Option Vector) (ds : List (Datum Vector))
      → Lacks i ds
      → IsFree es ds
      → IsFree (set es i v) ds
  set-IsFree es i v [] lacks free = tt
  set-IsFree es i v (d ∷ ds) (ne, lacks) (f, free) = (
    λ h.
        get_elem?-set_other es i (pos_part d.index) v (λ e. ne (sym e))
        ∙ f (rw (length-set es i v) at h),
    set-IsFree es i v ds lacks free,
  )

  place-filled :
      (n : ℕ) (ds : List (Datum Vector)) (es r : List (Option Vector))
      → length es ≡ n
      → IsDistinct ds
      → IsFree es ds
      → place n ds es ≡ ok r
      → filled r ≡ filled es + length ds
  unfolding place
  place-filled n [] es r same distinct free h = by_result r h
    where
      by_result :
          (q : List (Option Vector))
          → ◌≡◌ {A = Result (List (Option Vector))} (ok es) (ok q)
          → filled q ≡ filled es + 0
      by_result q k = let e : es ≡ q = cc in rw e (omega arith)
  place-filled n (d ∷ ds) es r same (lacks, distinct) (f, free) h =
      let (small, rest) = place-cons n d ds es r h in
      let i = pos_part d.index in
      let next = set es i (some d.embedding) in
      omega (
        arith,
        place-filled n ds next r (length-set es i (some d.embedding) ∙ same) distinct
            (set-IsFree es i (some d.embedding) ds lacks free) rest,
        filled-set es i d.embedding (f (rw same small)),
      )

  embeddings_of-IsPlaced :
      (n : ℕ) (response : EmbedResponse Vector) (r : List (Option Vector))
      → embeddings_of n (ok response) ≡ ok r
      → IsDistinct response.data_items
      → (length r ≡ n) × IsPlaced r response.data_items × All IsGiven r
  unfolding embeddings_of
  embeddings_of-IsPlaced n response r h distinct =
      elim (Bool-cases (ltb response.status 200 || leb 300 response.status)) [
        | inl e ↦ cc (rw e at h)
        | inr e ↦ elim (Bool-cases (length response.data_items == n)) [
          | inr k ↦ cc (rw (e, k) at h)
          | inl k ↦
              let items = response.data_items in
              let placed = rw (e, k) at h in
              let sized =
                place-length n items (replicate n none) r placed ∙ length-replicate n none in
              let full =
                place-filled n items (replicate n none) r (length-replicate n none) distinct
                  (replicate-IsFree n items) placed in
              let counted : length items ≡ n = ground arith in
              (
                sized,
                place-IsPlaced n items (replicate n none) r (length-replicate n none) distinct
                    placed,
                filled-IsGiven r (omega (arith, filled-replicate n none refl)),
              )
        ]
      ]

-- Where Embed succeeds and no two items of the answer have the same index, it returns as many slots as there are
-- texts, each holds an embedding, and the embedding of each item stands at its index, whatever the order of the
-- answer. Without the condition a slot may be left empty.
pub embed-IsPlaced :
    {Vector : Type 0} (send : Request → Result (EmbedResponse Vector)) (e : OpenAiConfig)
    (texts : List Bytes) (response : EmbedResponse Vector) (r : List (Option Vector))
    → send (embed_request e texts) ≡ ok response
    → embed send e texts ≡ ok r
    → IsDistinct response.data_items
    → (length r ≡ length texts) × IsPlaced r response.data_items × All IsGiven r
unfolding embed
embed-IsPlaced send e texts response r sent h distinct =
    embeddings_of-IsPlaced (length texts) response r (rw sent at h) distinct
