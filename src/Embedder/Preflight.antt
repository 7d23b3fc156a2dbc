-- ===== src/Embedder/Preflight.antt =====
-- The check before the start against the construction of the embedder.
use tfai_go.Backend.{Backend, ollama, open_ai, azure, bedrock, gemini, unknown, backend_of}
use tfai_go.Base.{
  ◌≡◌, ◌≢◌, refl, ◌⊎◌, inl, inr, ◌↔◌, Option, none, Bytes, [], bytes_eq, bytes_eq_sound, Env,
  Result, ok, ℤ, Bool-cases,
}
use tfai_go.Embedder.{
  Embedder, open_ai_case, azure_case, or_value, new_backend, new_from_env, validate_backend,
  validate_for_rag, resolve_backend,
}

-- An embedder is constructed.
abbrev pub IsConstructed : Result Embedder → Type 0
IsConstructed r = (e : Embedder) × (r ≡ ok e)

new_backend_iff :
    (atoi : Bytes → Option ℤ) (env : Env) (b : Backend)
    → IsConstructed (new_backend atoi env b)
      ↔ ((validate_backend env b ≡ none) × ((name : Bytes) → b ≢ unknown name))
unfolding new_backend validate_backend open_ai_case azure_case
new_backend_iff atoi env ollama = (λ _. (refl, λ name h. cc), λ _. (_, refl))
new_backend_iff atoi env open_ai =
    elim (Bool-cases (bytes_eq (or_value (env "EMBEDDING_API_KEY") (env "OPENAI_API_KEY")) [])) [
      | inl e ↦ rw e (λ (x, h). cc, λ (h, _). cc)
      | inr e ↦ rw e (λ _. (refl, λ name h. cc), λ _. (_, refl))
    ]
new_backend_iff atoi env azure =
    elim (Bool-cases
      (bytes_eq (or_value (env "EMBEDDING_API_KEY") (env "AZURE_OPENAI_API_KEY")) [])) [
        | inl e ↦ rw e (λ (x, h). cc, λ (h, _). cc)
        | inr e ↦
            elim (Bool-cases
              (bytes_eq (or_value (env "EMBEDDING_ENDPOINT") (env "AZURE_OPENAI_ENDPOINT")) [])) [
                | inl d ↦ rw (e, d) (λ (x, h). cc, λ (h, _). cc)
                | inr d ↦ rw (e, d) (λ _. (refl, λ name h. cc), λ _. (_, refl))
              ]
      ]
new_backend_iff atoi env bedrock = (λ (e, h). cc, λ (h, _). cc)
new_backend_iff atoi env gemini = (λ (e, h). cc, λ (h, _). cc)
new_backend_iff atoi env (unknown name) = (λ (e, h). cc, λ (_, h). absurd (h name refl))

Unknown-cases :
    (b : Backend) → ((name : Bytes) × (b ≡ unknown name)) ⊎ ((name : Bytes) → b ≢ unknown name)
Unknown-cases ollama = inr (λ name h. cc)
Unknown-cases open_ai = inr (λ name h. cc)
Unknown-cases azure = inr (λ name h. cc)
Unknown-cases bedrock = inr (λ name h. cc)
Unknown-cases gemini = inr (λ name h. cc)
Unknown-cases (unknown name) = inl (name, refl)

validate_unknown :
    (env : Env) (b : Backend) (name : Bytes) → b ≡ unknown name → validate_backend env b ≡ none
unfolding validate_backend
validate_unknown env b name e = rw e refl

validate_backend_iff :
    (atoi : Bytes → Option ℤ) (env : Env) (b : Backend)
    → (validate_backend env b ≡ none)
      ↔ (IsConstructed (new_backend atoi env b) ⊎ ((name : Bytes) × (b ≡ unknown name)))
validate_backend_iff atoi env b = (to (Unknown-cases b), from)
  where
    to :
        ((name : Bytes) × (b ≡ unknown name)) ⊎ ((name : Bytes) → b ≢ unknown name)
        → validate_backend env b ≡ none
        → IsConstructed (new_backend atoi env b) ⊎ ((name : Bytes) × (b ≡ unknown name))
    to (inl u) h = inr u
    to (inr k) h = inl ((new_backend_iff atoi env b).1 (h, k))

    from :
        IsConstructed (new_backend atoi env b) ⊎ ((name : Bytes) × (b ≡ unknown name))
        → validate_backend env b ≡ none
    from (inl c) = ((new_backend_iff atoi env b).0 c).0
    from (inr (name, e)) = validate_unknown env b name e

-- Where QDRANT_HOST is set, ValidateForRAG reports no error exactly when NewFromEnv can construct the
-- embedder or the name of the backend is none of the five: a misspelt name passes the check.
pub validate_for_rag_iff :
    (atoi : Bytes → Option ℤ) (env : Env)
    → env "QDRANT_HOST" ≢ []
    → (validate_for_rag env ≡ none) ↔ (
        IsConstructed (new_from_env atoi env)
        ⊎ ((name : Bytes) × (backend_of (resolve_backend env) ≡ unknown name)))
unfolding validate_for_rag new_from_env
validate_for_rag_iff atoi env set = elim (Bool-cases (bytes_eq (env "QDRANT_HOST") [])) [
  | inl e ↦ absurd (set (bytes_eq_sound (env "QDRANT_HOST") [] e))
  | inr e ↦ rw e (validate_backend_iff atoi env (backend_of (resolve_backend env)))
]
