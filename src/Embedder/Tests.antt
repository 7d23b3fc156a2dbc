-- ===== src/Embedder/Tests.antt =====
-- A run of the check before the start at a concrete input.
use tfai_go.Backend.{unknown, backend_of}
use tfai_go.Base.{◌≡◌, ◌↔◌, ◌⊎◌, none, Bytes, codes, Env}
use tfai_go.Embedder.{new_from_env, validate_for_rag, resolve_backend}
use tfai_go.Embedder.Preflight.{IsConstructed, validate_for_rag_iff}

-- Every variable is set, to the same text, which names no backend.
abbrev env : Env
env key = codes "olama"

validate_for_rag_iff_example : (validate_for_rag env ≡ none) ↔ (
    IsConstructed (new_from_env (λ s. none) env)
    ⊎ ((name : Bytes) × (backend_of (resolve_backend env) ≡ unknown name)))
validate_for_rag_iff_example = validate_for_rag_iff (λ s. none) env (λ h. cc)
