-- ===== src/Commands/Ingest/Stored.antt =====
-- What a run of the ingest command has stored, on every branch.
use tfai_go.Base.{
  ◌≡◌, ◌≢◌, ◌⊎◌, codes, ◌∙◌, refl, sym, ap, inl, inr, ℕ, Option, none, some, List, [], ◌∷◌, ◌++◌,
  map, Bytes, Result, ok, err,
}
use tfai_go.Commands.Prompts.{Labels, source_of, ingest_sources}
use tfai_go.Commands.Ingest.{
  Outside, Ingested, services_of, ingest_config, refused, ended, with_pipeline, with_store,
  with_embedder, validated, with_sources, run_ingest,
}
use tfai_go.Embedder.{Embedder, new_from_env, validate_for_rag}
use tfai_go.Ingestion.{PipelineConfig, no_config, resolve_config, new_pipeline}
use tfai_go.Ingestion.Metadata.{infer_metadata}
use tfai_go.Ingestion.Pipeline.{Source, ingest_source, ingest}
use tfai_go.Ingestion.Pipeline.Sequence.{ingest-Progress}
use tfai_go.Rag.{Point}
use tfai_go.Rag.Collection.{with_defaults, new_qdrant_store, IsEnsured, new_qdrant_store-IsEnsured}

-- The settings of a pipeline that is given none.
abbrev pub default_config : PipelineConfig
default_config = resolve_config no_config

abbrev failed_by : Option Bytes → Option Bytes
failed_by none = none
failed_by (some message) = some (codes "ingest: pipeline failed: " ++ message)

module _ {Vector : Type 0} (o : Outside Vector) where
  -- The sources that are not stored: none, and there is no error; or the first of them has failed, and its error
  -- is that of the run.
  abbrev pub IsStopped : Embedder → List Source → Option Bytes → Type 0
  IsStopped emb left error =
      ((left ≡ []) × (error ≡ none))
      ⊎ ((src : Source) × (rest : List Source) × (message : Bytes) × (left ≡ src ∷ rest)
          × (ingest_source (services_of o default_config emb) default_config src ≡ err message)
          × (error ≡ some (codes "ingest: pipeline failed: " ++ message)))

  -- The checks have passed, and the sources up to the first that failed, if there is one, are stored.
  pub record IsStored (sources : List Source) (x : Ingested Vector) : Type 0 where
    pub embedder : Embedder
    pub checked : validate_for_rag o.env ≡ none
    pub constructed : new_from_env o.atoi o.env ≡ ok embedder
    pub ensured : IsEnsured o.qdrant (with_defaults (ingest_config o)) x.created
    pub finished : List Source
    pub left : List Source
    pub in_order : sources ≡ finished ++ left
    pub each :
        map (ingest_source (services_of o default_config embedder) default_config) finished
        ≡ map ok x.stored
    pub stopped : IsStopped embedder left x.error

  -- What keeps a run from its sources: there is none, or a check or a constructor fails.
  abbrev pub IsBarred : List Source → Type 0
  IsBarred sources =
      (sources ≡ [])
      ⊎ (validate_for_rag o.env ≢ none)
      ⊎ ((message : Bytes) × (new_from_env o.atoi o.env ≡ err message))
      ⊎ ((new_qdrant_store o.qdrant (ingest_config o)).1 ≢ none)

  -- Nothing is stored, and there is an error, and a reason; or the run is accounted for.
  abbrev pub IsAccounted : List Source → Ingested Vector → Type 0
  IsAccounted sources x =
      ((x.stored ≡ []) × (x.error ≢ none) × IsBarred sources) ⊎ IsStored sources x

  refused-IsAccounted :
      (sources : List Source) (created : List (Bytes × ℕ)) (message : Bytes)
      → IsBarred sources
      → IsAccounted sources (refused o created message)
  unfolding refused
  refused-IsAccounted sources created message why = inl (refl, (λ h. cc), why)

  ended-parts :
      (created : List (Bytes × ℕ)) (r : List (List (Point (Option Vector))) × Option Bytes)
      → let x = ended o created r in
        (x.created ≡ created) × (x.stored ≡ r.0) × (x.error ≡ failed_by r.1)
  unfolding ended
  ended-parts created (stored, none) = (refl, refl, refl)
  ended-parts created (stored, some message) = (refl, refl, refl)

  with_pipeline-IsAccounted :
      (sources : List Source) (emb : Embedder) (created : List (Bytes × ℕ))
      → validate_for_rag o.env ≡ none
      → new_from_env o.atoi o.env ≡ ok emb
      → IsEnsured o.qdrant (with_defaults (ingest_config o)) created
      → IsAccounted sources (with_pipeline o sources emb created (some default_config))
  unfolding with_pipeline
  with_pipeline-IsAccounted sources emb created v e i =
      let cfg = default_config in
      let p = ingest-Progress (services_of o cfg emb) cfg sources [] in
      let (made, stored, said) =
        ended-parts created (ingest (services_of o cfg emb) cfg sources []) in
      inr (record {
        embedder = emb;
        checked = v;
        constructed = e;
        ensured = rw made i;
        finished = p.done;
        left = p.rest;
        in_order = p.in_order;
        each = p.each ∙ ap (map ok) (sym (stored ∙ p.kept));
        stopped = elim p.ended [
          | inl (all_done, no_error) ↦ inl (all_done, said ∙ ap failed_by no_error)
          | inr (src, left, message, there, failed, ended_by) ↦
              inr (src, left, message, there, failed, said ∙ ap failed_by ended_by)
        ];
      })

  with_store-IsAccounted :
      (sources : List Source) (emb : Embedder) (r : List (Bytes × ℕ) × Option Bytes)
      → validate_for_rag o.env ≡ none
      → new_from_env o.atoi o.env ≡ ok emb
      → new_qdrant_store o.qdrant (ingest_config o) ≡ r
      → IsAccounted sources (with_store o sources emb r)
  unfolding with_store new_pipeline
  with_store-IsAccounted sources emb (created, some message) v e q =
      refused-IsAccounted sources created _ (inr (inr (inr (λ h. cc (q, h)))))
  with_store-IsAccounted sources emb (created, none) v e q =
      with_pipeline-IsAccounted sources emb created v e
        (new_qdrant_store-IsEnsured o.qdrant (ingest_config o) created q).1

  with_embedder-IsAccounted :
      (sources : List Source) (r : Result Embedder)
      → validate_for_rag o.env ≡ none
      → new_from_env o.atoi o.env ≡ r
      → IsAccounted sources (with_embedder o sources r)
  unfolding with_embedder
  with_embedder-IsAccounted sources (err message) v e =
      refused-IsAccounted sources [] _ (inr (inr (inl (message, e))))
  with_embedder-IsAccounted sources (ok emb) v e =
      with_store-IsAccounted sources emb (new_qdrant_store o.qdrant (ingest_config o)) v e refl

  validated-IsAccounted :
      (sources : List Source) (r : Option Bytes)
      → validate_for_rag o.env ≡ r
      → IsAccounted sources (validated o sources r)
  unfolding validated
  validated-IsAccounted sources (some message) v =
      refused-IsAccounted sources [] _ (inr (inl (λ h. cc)))
  validated-IsAccounted sources none v =
      with_embedder-IsAccounted sources (new_from_env o.atoi o.env) v refl

  -- The ingest command, on every branch: nothing is stored and there is an error, since no URL is given, or
  -- ValidateForRAG, the construction of the embedder or that of the store fails; or the checks have passed, the
  -- collection was there or was created for vectors of the configured size, and the URLs are handled in their order,
  -- one stored batch for each, with the labels of the flags or of the URL and the default settings of the pipeline.
  -- Then either all are stored and there is no error, or the first that is not stored has failed, and its error is
  -- that of the command.
  pub run_ingest-IsAccounted :
      (labels : Labels) (urls : List Bytes)
      → IsAccounted
          (map (source_of (infer_metadata o.parse_url) labels) urls)
          (run_ingest o labels urls)
  unfolding run_ingest with_sources ingest_sources
  run_ingest-IsAccounted labels [] = refused-IsAccounted [] [] _ (inl refl)
  run_ingest-IsAccounted labels (url ∷ urls) =
      validated-IsAccounted (map (source_of (infer_metadata o.parse_url) labels) (url ∷ urls))
        (validate_for_rag o.env) refl
