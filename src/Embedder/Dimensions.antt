-- ===== src/Embedder/Dimensions.antt =====
-- The length of the vectors that an embedder of the OpenAI API asks for, against DefaultDimensions.
use Prim.Native.Nat.{zero, suc}
use tfai_go.Backend.{Backend, ollama, open_ai, azure, bedrock, gemini, unknown, backend_of}
use tfai_go.Base.{
  get_env_or_default, ◌≡◌, ◌≢◌, ◌∙◌, refl, sym, inl, inr, arith, ◌<◌, Bool, true, false, Option,
  none, some, Bytes, [], codes, bytes_eq, Env, ok, ok_inj, if◌then◌else◌, ℤ, pos, negsuc, pos_part,
  is_nonpos, Bool-cases, not,
}
use tfai_go.Embedder.{
  OpenAiConfig, open_ai_embedder, open_ai_case, azure_case, or_value, or_int, get_env_int,
  new_backend, new_from_env, default_dimensions, resolve_backend,
}

same_dimensions :
    (a b : OpenAiConfig)
    → ok (open_ai_embedder a) ≡ ok (open_ai_embedder b)
    → a.dimensions ≡ b.dimensions
same_dimensions a b h = by_embedder (ok_inj h)
  where
    by_embedder : open_ai_embedder a ≡ open_ai_embedder b → a.dimensions ≡ b.dimensions
    by_embedder k = cc

sized_positive :
    (v : ℤ) (b : Bool)
    → 0 < pos_part (if not (is_nonpos v) then v else if b then pos 768 else pos 1536)
sized_positive (pos zero) true = omega arith
sized_positive (pos zero) false = omega arith
sized_positive (pos (suc n)) b = omega arith
sized_positive (negsuc n) true = omega arith
sized_positive (negsuc n) false = omega arith

sized_or_int :
    (o : Option ℤ)
    → is_nonpos (or_int o (pos 1536)) ≡ false
    → or_int o (pos 1536)
      ≡ pos (pos_part (if not (is_nonpos (or_int o (pos 0))) then or_int o (pos 0) else pos 1536))
sized_or_int none h = refl
sized_or_int (some (pos zero)) h = cc
sized_or_int (some (pos (suc n))) h = refl
sized_or_int (some (negsuc n)) h = cc

module _ (atoi : Bytes → Option ℤ) (env : Env) where
  abbrev asked_dimensions : ℤ
  asked_dimensions = get_env_int atoi env "EMBEDDING_DIMENSIONS" (pos 1536)

  asked :
      (b : Backend) (cfg : OpenAiConfig)
      → new_backend atoi env b ≡ ok (open_ai_embedder cfg)
      → (b ≢ ollama) × (cfg.dimensions ≡ asked_dimensions)
  unfolding new_backend open_ai_case azure_case
  asked ollama cfg h = cc
  asked open_ai cfg h =
      elim (Bool-cases (bytes_eq (or_value (env "EMBEDDING_API_KEY") (env "OPENAI_API_KEY")) [])) [
        | inl e ↦ cc (rw e at h)
        | inr e ↦ (λ x. cc, sym (same_dimensions _ cfg (rw e at h)))
      ]
  asked azure cfg h =
      elim (Bool-cases
        (bytes_eq (or_value (env "EMBEDDING_API_KEY") (env "AZURE_OPENAI_API_KEY")) [])) [
          | inl e ↦ cc (rw e at h)
          | inr e ↦
              elim (Bool-cases
                (bytes_eq (or_value (env "EMBEDDING_ENDPOINT") (env "AZURE_OPENAI_ENDPOINT")) [])) [
                  | inl d ↦ cc (rw (e, d) at h)
                  | inr d ↦ (λ x. cc, sym (same_dimensions _ cfg (rw (e, d) at h)))
                ]
        ]
  asked bedrock cfg h = cc
  asked gemini cfg h = cc
  asked (unknown name) cfg h = cc

  sized :
      (name : Bytes)
      → bytes_eq name (codes "ollama") ≡ false
      → is_nonpos asked_dimensions ≡ false
      → asked_dimensions ≡ pos (pos_part (default_dimensions atoi env name))
  unfolding default_dimensions get_env_int
  sized name n h = elim (Bool-cases (bytes_eq (env "EMBEDDING_DIMENSIONS") [])) [
    | inl e ↦ rw (e, n) refl
    | inr e ↦ rw (e, n) (sized_or_int (atoi (env "EMBEDDING_DIMENSIONS")) (rw e at h))
  ]

  ollama_name : (name : Bytes) → backend_of name ≢ ollama → bytes_eq name (codes "ollama") ≡ false
  unfolding backend_of
  ollama_name name ne = elim (Bool-cases (bytes_eq name (codes "ollama"))) [
    | inl e ↦ absurd (ne (rw e refl))
    | inr e ↦ e
  ]

  -- Every size of DefaultDimensions is positive.
  pub default_dimensions_positive : (name : Bytes) → 0 < pos_part (default_dimensions atoi env name)
  unfolding default_dimensions
  default_dimensions_positive name =
      sized_positive (get_env_int atoi env "EMBEDDING_DIMENSIONS" (pos 0))
        (bytes_eq name (codes "ollama"))

  -- Where NewFromEnv gives an embedder of the OpenAI API that asks for a positive length, DefaultDimensions
  -- of the backend is that length.
  pub open_ai-default_dimensions :
      (cfg : OpenAiConfig)
      → new_from_env atoi env ≡ ok (open_ai_embedder cfg)
      → is_nonpos cfg.dimensions ≡ false
      → cfg.dimensions ≡ pos (pos_part (default_dimensions atoi env (resolve_backend env)))
  unfolding new_from_env
  open_ai-default_dimensions cfg h p =
      let (ne, d) = asked (backend_of (resolve_backend env)) cfg h in
      d ∙ sized (resolve_backend env) (ollama_name (resolve_backend env) ne) (rw d at p)

-- The backend is looked up in the environment as the commands do it.
pub resolve_backend-get_env_or_default :
    (env : Env)
    → resolve_backend env
      ≡ get_env_or_default env "EMBEDDING_PROVIDER"
          (get_env_or_default env "MODEL_PROVIDER" (codes "ollama"))
unfolding resolve_backend or_value get_env_or_default
resolve_backend-get_env_or_default env = refl
