-- ===== src/Provider/FromEnv/Generate.antt =====
-- Which settings the model for generation is constructed from.
use tfai_go.Backend.{Backend, ollama, open_ai, azure, bedrock, gemini, unknown, backend_of}
use tfai_go.Base.{
  sym, ◌≡◌, ◌≢◌, refl, ◌⊎◌, inl, inr, true, false, Option, [], Bytes, codes, bytes_eq,
  bytes_eq_sound, Env, get_env_or_default, String, ℤ, ◌||◌, if◌then◌else◌, Bool-cases,
}
use tfai_go.Provider.Settings.{Config}
use tfai_go.Provider.FromEnv.{
  config_from_env, override_model, generate_backend, no_overrides, with_generate_overrides,
}

-- The same credentials, endpoints, region, host and limits: what the overrides may not change.
abbrev pub SameAccess : {Float : Type 0} → Config Float → Config Float → Type 0
SameAccess c d =
    (c.azure_open_ai.api_key ≡ d.azure_open_ai.api_key)
    × (c.azure_open_ai.endpoint ≡ d.azure_open_ai.endpoint)
    × (c.azure_open_ai.codex ≡ d.azure_open_ai.codex)
    × (c.bedrock.aws_region ≡ d.bedrock.aws_region)
    × (c.gemini.api_key ≡ d.gemini.api_key)
    × (c.open_ai.api_key ≡ d.open_ai.api_key)
    × (c.ollama.host ≡ d.ollama.host)
    × (c.tuning ≡ d.tuning)

module _ {Float : Type 0} (env : Env) where
  override_model-SameAccess :
      (c : Config Float) (b : Backend) → SameAccess (override_model env c b) c
  unfolding override_model
  override_model-SameAccess c ollama = (refl, refl, refl, refl, refl, refl, refl, refl)
  override_model-SameAccess c open_ai = (refl, refl, refl, refl, refl, refl, refl, refl)
  override_model-SameAccess c azure = (refl, refl, refl, refl, refl, refl, refl, refl)
  override_model-SameAccess c bedrock = (refl, refl, refl, refl, refl, refl, refl, refl)
  override_model-SameAccess c gemini = (refl, refl, refl, refl, refl, refl, refl, refl)
  override_model-SameAccess c (unknown name) = (refl, refl, refl, refl, refl, refl, refl, refl)

  override_model-backend :
      (c : Config Float) (b : Backend) → (override_model env c b).backend ≡ c.backend
  unfolding override_model
  override_model-backend c ollama = refl
  override_model-backend c open_ai = refl
  override_model-backend c azure = refl
  override_model-backend c bedrock = refl
  override_model-backend c gemini = refl
  override_model-backend c (unknown name) = refl

-- WithGenerateOverrides never changes a credential, an endpoint, a region, a host, the Codex settings or the
-- shared tuning: the model for generation runs with the access of the chat model.
pub with_generate_overrides-SameAccess :
    {Float : Type 0} (env : Env) (c : Config Float) → SameAccess (with_generate_overrides env c) c
unfolding with_generate_overrides
with_generate_overrides-SameAccess env c = elim (Bool-cases (no_overrides env)) [
  | inl e ↦ rw e (refl, refl, refl, refl, refl, refl, refl, refl)
  | inr e ↦ rw e (
      override_model-SameAccess env (record c { backend = generate_backend c.generate c.backend })
        (backend_of (generate_backend c.generate c.backend)))
]

get_env_or_default-nonempty :
    (env : Env) (key : String) (fallback : Bytes)
    → fallback ≢ []
    → bytes_eq (get_env_or_default env key fallback) [] ≡ false
unfolding get_env_or_default
get_env_or_default-nonempty env key fallback ne = elim (Bool-cases (bytes_eq (env key) [])) [
  | inl e ↦ rw e (nonempty (Bool-cases (bytes_eq fallback [])))
  | inr e ↦ rw (e) e
]
  where
    nonempty :
        (bytes_eq fallback [] ≡ true) ⊎ (bytes_eq fallback [] ≡ false)
        → bytes_eq fallback [] ≡ false
    nonempty (inl h) = absurd (ne (bytes_eq_sound fallback [] h))
    nonempty (inr h) = h

-- The backend of the overrides that ConfigFromEnv fills in.
chosen :
    (gen backend : Bytes)
    → bytes_eq gen [] ≡ false
    → (if bytes_eq gen [] || bytes_eq gen backend then backend else gen) ≡ gen
chosen gen backend ne = elim (Bool-cases (bytes_eq gen backend)) [
  | inl e ↦ rw (ne, e) (sym (bytes_eq_sound gen backend e))
  | inr e ↦ rw (ne, e) refl
]

-- As soon as one of the variables for generation is set, the model for generation is constructed for the
-- backend GENERATE_MODEL_PROVIDER, and for ollama if this one is not set, whatever MODEL_PROVIDER says.
pub with_generate_overrides-backend :
    {Float : Type 0} (atoi : Bytes → Option ℤ) (parse_float : Bytes → Option Float)
    (default_temperature : Float) (env : Env)
    → no_overrides env ≡ false
    → (with_generate_overrides env
        (config_from_env atoi parse_float default_temperature env)).backend
      ≡ get_env_or_default env "GENERATE_MODEL_PROVIDER" (codes "ollama")
unfolding with_generate_overrides config_from_env generate_backend
with_generate_overrides-backend atoi parse_float default_temperature env set =
    let gen = get_env_or_default env "GENERATE_MODEL_PROVIDER" (codes "ollama") in
    let backend = get_env_or_default env "MODEL_PROVIDER" (codes "ollama") in
    let ne = get_env_or_default-nonempty env "GENERATE_MODEL_PROVIDER" (codes "ollama") (λ h. cc) in
    rw (set, override_model-backend, chosen gen backend ne, ne) refl
