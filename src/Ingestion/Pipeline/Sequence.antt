-- ===== src/Ingestion/Pipeline/Sequence.antt =====
-- Ingest handles the sources in order and stops at the first error.
use tfai_go.Base.{
  ◌≡◌, refl, sym, ap, ◌∙◌, ◌++◌, append-nil, append_assoc, map, ◌⊎◌, inl, inr, Option, none, some,
  List, [], ◌∷◌, Bytes, Result, ok, err,
}
use tfai_go.Rag.{Point}
use tfai_go.Ingestion.{PipelineConfig}
use tfai_go.Ingestion.Pipeline.{Source, Services, ingest_source, ingest}

module _ {Vector : Type 0} (services : Services Vector) (cfg : PipelineConfig) where
  -- How far a run of Ingest got: the sources that were stored and what they gave, and the rest.
  pub record Progress (sources : List Source) (stored : List (List (Point Vector)))
      (result : List (List (Point Vector)) × Option Bytes) : Type 0 where
    pub done : List Source
    pub rest : List Source
    pub batches : List (List (Point Vector))
    pub in_order : sources ≡ done ++ rest
    pub each : map (ingest_source services cfg) done ≡ map ok batches
    pub kept : result.0 ≡ stored ++ batches
    pub ended :
        ((rest ≡ []) × (result.1 ≡ none))
        ⊎ ((src : Source) × (left : List Source) × (message : Bytes) × (rest ≡ src ∷ left)
            × (ingest_source services cfg src ≡ err message)
            × (result.1 ≡ some message))

  -- Ingest stores the sources in order, one batch for each, and ends without an error when all are
  -- stored; at the first source that fails it ends with that error, and the batches of the sources
  -- before it stay stored.
  pub ingest-Progress :
      (sources : List Source) (stored : List (List (Point Vector)))
      → Progress sources stored (ingest services cfg sources stored)
  unfolding ingest
  ingest-Progress [] stored = record {
    done = [];
    rest = [];
    batches = [];
    in_order = refl;
    each = refl;
    kept = sym (append-nil stored);
    ended = inl (refl, refl);
  }
  ingest-Progress (src ∷ sources) stored =
      by_result (ingest_source services cfg src) refl
        (λ points. ingest-Progress sources (stored ++ points ∷ []))
    where
      by_result :
          (r : Result (List (Point Vector)))
          → ingest_source services cfg src ≡ r
          → ((points : List (Point Vector))
              → Progress sources
                  (stored ++ points ∷ [])
                  (ingest services cfg sources (stored ++ points ∷ [])))
          → Progress (src ∷ sources) stored (elim r [
            | ok points ↦ ingest services cfg sources (stored ++ points ∷ [])
            | err message ↦ (stored, some message)
          ])
      by_result (err message) e rec = record {
        done = [];
        rest = src ∷ sources;
        batches = [];
        in_order = refl;
        each = refl;
        kept = sym (append-nil stored);
        ended = inr (src, sources, message, refl, e, refl);
      }
      by_result (ok points) e rec =
          let p = rec points in
          record {
            done = src ∷ p.done;
            rest = p.rest;
            batches = points ∷ p.batches;
            in_order = ap (λ l. src ∷ l) p.in_order;
            each = cc (e, p.each);
            kept = p.kept ∙ append_assoc stored (points ∷ []) p.batches;
            ended = p.ended;
          }
