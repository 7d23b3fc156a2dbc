-- ===== src/Commands/Retriever.antt =====
-- When the commands have a retriever, and what it is made of.
use tfai_go.Base.{
  ◌≡◌, ◌≢◌, ◌∙◌, ◌↔◌, refl, sym, ap, inl, inr, ◌<◌, false, Option, none, some, [], Bytes, bytes_eq,
  bytes_eq_cons, bytes_eq_sound, Env, Result, ok, err, ok_inj, Option-cases, Bool-cases, ℤ, pos,
  is_nonpos, pos_part,
}
use tfai_go.Embedder.{
  Embedder, OpenAiConfig, open_ai_embedder, new_from_env, validate_for_rag, default_dimensions,
  resolve_backend,
}
use tfai_go.Embedder.Dimensions.{
  default_dimensions_positive, open_ai-default_dimensions, resolve_backend-get_env_or_default,
}
use tfai_go.Rag.Collection.{QdrantConfig}
use tfai_go.Commands.{RagSetup, embedding_provider, qdrant_config, connect_store, build_retriever}

module _ (atoi : Bytes → Option ℤ) (connect : QdrantConfig → Option Bytes) (env : Env) where
  -- A retriever has passed the check, holds the embedder of the environment, and is connected to a
  -- collection whose vectors are as long as the embedder's, where that says how long they are.
  pub record IsFitting (r : RagSetup) : Type 0 where
    pub host : env "QDRANT_HOST" ≢ []
    pub valid : validate_for_rag env ≡ none
    pub embedding : new_from_env atoi env ≡ ok r.embedder
    pub connected : connect r.qdrant ≡ none
    pub address : r.qdrant.host ≡ env "QDRANT_HOST"
    pub positive : 0 < r.qdrant.vector_size
    pub fits :
        (cfg : OpenAiConfig)
        → r.embedder ≡ open_ai_embedder cfg
        → is_nonpos cfg.dimensions ≡ false
        → cfg.dimensions ≡ pos r.qdrant.vector_size

  vector_size_lem :
      (qdrant_config atoi env (env "QDRANT_HOST")).vector_size
      ≡ pos_part (default_dimensions atoi env (resolve_backend env))
  unfolding qdrant_config embedding_provider
  vector_size_lem =
      ap (λ name. pos_part (default_dimensions atoi env name))
        (sym (resolve_backend-get_env_or_default env))

  connect_store-ok :
      (emb : Result Embedder) (r : RagSetup)
      → connect_store atoi connect env emb ≡ ok (some r)
      → (emb ≡ ok r.embedder)
        × (r.qdrant ≡ qdrant_config atoi env (env "QDRANT_HOST"))
        × (connect r.qdrant ≡ none)
  unfolding connect_store
  connect_store-ok (err e) r h = cc
  connect_store-ok (ok emb) r h =
      elim (Option-cases (connect (qdrant_config atoi env (env "QDRANT_HOST")))) [
        | inl e ↦ rw (← some_inj _ r (ok_inj (rw (connect_store, e) at h))) (refl, refl, e)
        | inr (m, e) ↦ cc (rw (connect_store, e) at h)
      ]
    where
      some_inj : (a b : RagSetup) → some a ≡ some b → a ≡ b
      some_inj a b k = cc

  connect_store-some : (emb : Result Embedder) → connect_store atoi connect env emb ≢ ok none
  unfolding connect_store
  connect_store-some (err e) h = cc
  connect_store-some (ok emb) h =
      elim (Option-cases (connect (qdrant_config atoi env (env "QDRANT_HOST")))) [
        | inl e ↦ cc (rw (connect_store, e) at h)
        | inr (m, e) ↦ cc (rw (connect_store, e) at h)
      ]

  fitting :
      (r : RagSetup)
      → env "QDRANT_HOST" ≢ []
      → validate_for_rag env ≡ none
      → connect_store atoi connect env (new_from_env atoi env) ≡ ok (some r)
      → IsFitting r
  unfolding qdrant_config
  fitting r host valid h =
      let (emb, q, c) = connect_store-ok (new_from_env atoi env) r h in
      let size = ap (λ x. x.vector_size) q ∙ vector_size_lem in
      record {
        host = host;
        valid = valid;
        embedding = emb;
        connected = c;
        address = ap (λ x. x.host) q;
        positive = rw size (default_dimensions_positive atoi env (resolve_backend env));
        fits = λ cfg e p. rw size (open_ai-default_dimensions atoi env cfg (emb ∙ ap ok e) p);
      }

  -- The commands go without retrieval exactly when QDRANT_HOST is not set, and every retriever that they
  -- build has passed ValidateForRAG, holds the embedder that NewFromEnv gives, is connected to the host of
  -- the environment, and stores vectors of a positive length, which is the length that an embedder of the
  -- OpenAI API asks for unless the setting of that length is not positive.
  pub build_retriever-IsFitting :
      ((build_retriever atoi connect env ≡ ok none) ↔ (env "QDRANT_HOST" ≡ []))
      × ((r : RagSetup) → build_retriever atoi connect env ≡ ok (some r) → IsFitting r)
  unfolding build_retriever
  build_retriever-IsFitting = elim (Bool-cases (bytes_eq (env "QDRANT_HOST") [])) [
    | inl e ↦ (
      (λ _. bytes_eq_sound _ _ e, λ _. rw (build_retriever, e) refl),
      λ r h. cc (rw (build_retriever, e) at h),
    )
    | inr e ↦
        let host = bytes_eq_cons (env "QDRANT_HOST") e in
        elim (Option-cases (validate_for_rag env)) [
          | inl v ↦ (
            (
              λ h. absurd (connect_store-some _ (rw (build_retriever, e, v) at h)),
              λ h. absurd (host h),
            ),
            λ r h. fitting r host v (rw (build_retriever, e, v) at h),
          )
          | inr (m, v) ↦ (
            (λ h. cc (rw (build_retriever, e, v) at h), λ h. absurd (host h)),
            λ r h. cc (rw (build_retriever, e, v) at h),
          )
        ]
  ]
