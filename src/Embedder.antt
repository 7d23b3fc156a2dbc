-- ===== src/Embedder.antt =====
-- internal/embedder: the choice of the embedding backend from the environment, its defaults, and the check
-- before the start. strconv.Atoi is a parameter; log lines are not modelled.
pub mod Preflight
pub mod Dimensions
pub mod OpenAi
pub mod Ollama
mod Tests
use tfai_go.Backend.{Backend, ollama, open_ai, azure, bedrock, gemini, unknown, backend_of}
use tfai_go.Base.{
  String, ℕ, Bool, true, false, Option, none, some, List, [], ◌∷◌, ◌++◌, Bytes, codes, bytes_eq,
  contains, to_lower, Env, get_env_or_default, Result, ok, err, ℤ, pos, is_nonpos, not, ◌||◌,
  if◌then◌else◌,
}

-- OllamaConfig, OpenAIConfig
pub record OllamaConfig : Type 0 where
  pub host : Bytes
  pub model : Bytes

pub record OpenAiConfig : Type 0 where
  pub base_url : Bytes
  pub api_key : Bytes
  pub model : Bytes
  pub dimensions : ℤ
  pub azure : Bool
  pub api_version : Bytes

-- The embedder that is constructed.
pub data Embedder : Type 0 where
  ollama_embedder : OllamaConfig → Embedder
  open_ai_embedder : OpenAiConfig → Embedder

abbrev pub or_int : Option ℤ → ℤ → ℤ
or_int none fallback = fallback
or_int (some n) fallback = n

-- getEnvInt
pub get_env_int : (Bytes → Option ℤ) → Env → String → ℤ → ℤ
get_env_int atoi env key fallback =
    if bytes_eq (env key) [] then fallback else or_int (atoi (env key)) fallback

-- The value, or another one where it is empty.
pub or_value : Bytes → Bytes → Bytes
or_value value other = if bytes_eq value [] then other else value

-- The backend: EMBEDDING_PROVIDER, or MODEL_PROVIDER, or ollama.
pub resolve_backend : Env → Bytes
unfolding or_value
resolve_backend env =
    or_value (env "EMBEDDING_PROVIDER") (get_env_or_default env "MODEL_PROVIDER" (codes "ollama"))

abbrev pub default_ollama_model : Bytes
default_ollama_model = codes "nomic-embed-text"

abbrev pub default_open_ai_model : Bytes
default_open_ai_model = codes "text-embedding-3-small"

-- DefaultDimensions
pub default_dimensions : (Bytes → Option ℤ) → Env → Bytes → ℤ
unfolding get_env_int
default_dimensions atoi env backend =
    let v = get_env_int atoi env "EMBEDDING_DIMENSIONS" (pos 0) in
    if not (is_nonpos v) then v else if bytes_eq backend (codes "ollama") then pos 768 else pos 1536

-- The two cases of NewFromEnv that need credentials, once these are resolved.
pub open_ai_case : (Bytes → Option ℤ) → Env → Bytes → Result Embedder
unfolding get_env_int or_value
open_ai_case atoi env api_key =
    if bytes_eq api_key []
    then err (codes "embedder: openai requires OPENAI_API_KEY or EMBEDDING_API_KEY")
    else ok (
        open_ai_embedder (record {
          base_url = or_value (env "EMBEDDING_ENDPOINT") (codes "https://api.openai.com/v1");
          api_key = api_key;
          model = get_env_or_default env "EMBEDDING_MODEL" default_open_ai_model;
          dimensions = get_env_int atoi env "EMBEDDING_DIMENSIONS" (pos 1536);
          azure = false;
          api_version = [];
        }))

pub azure_case : (Bytes → Option ℤ) → Env → Bytes → Bytes → Result Embedder
unfolding get_env_int
azure_case atoi env api_key endpoint =
    if bytes_eq api_key []
    then err (codes "embedder: azure requires AZURE_OPENAI_API_KEY or EMBEDDING_API_KEY")
    else if bytes_eq endpoint []
    then err (codes "embedder: azure requires AZURE_OPENAI_ENDPOINT or EMBEDDING_ENDPOINT")
    else ok (
        open_ai_embedder (record {
          base_url = endpoint ++ codes "/openai";
          api_key = api_key;
          model = get_env_or_default env "EMBEDDING_MODEL" default_open_ai_model;
          dimensions = get_env_int atoi env "EMBEDDING_DIMENSIONS" (pos 1536);
          azure = true;
          api_version =
              get_env_or_default env "AZURE_OPENAI_API_VERSION" (codes "2025-04-01-preview");
        }))

pub new_backend : (Bytes → Option ℤ) → Env → Backend → Result Embedder
unfolding open_ai_case azure_case or_value
new_backend atoi env ollama = ok (
    ollama_embedder (record {
      host =
          or_value (env "EMBEDDING_ENDPOINT")
            (get_env_or_default env "OLLAMA_HOST" (codes "http://localhost:11434"));
      model = get_env_or_default env "EMBEDDING_MODEL" default_ollama_model;
    }))
new_backend atoi env open_ai =
    open_ai_case atoi env (or_value (env "EMBEDDING_API_KEY") (env "OPENAI_API_KEY"))
new_backend atoi env azure =
    azure_case atoi env (or_value (env "EMBEDDING_API_KEY") (env "AZURE_OPENAI_API_KEY"))
      (or_value (env "EMBEDDING_ENDPOINT") (env "AZURE_OPENAI_ENDPOINT"))
new_backend atoi env bedrock = err (
    codes
      "embedder: bedrock embedding support is not yet implemented (model: amazon.titan-embed-text-v2)")
new_backend atoi env gemini =
    err (
      codes "embedder: gemini embedding support is not yet implemented (model: text-embedding-004)")
new_backend atoi env (unknown name) = err (
    codes "embedder: unknown backend \""
    ++ name
    ++ codes "\" — valid values: ollama, openai, azure, bedrock, gemini")

-- NewFromEnv
pub new_from_env : (Bytes → Option ℤ) → Env → Result Embedder
unfolding new_backend resolve_backend
new_from_env atoi env = new_backend atoi env (backend_of (resolve_backend env))

-- The switch of ValidateForRAG: the error, if there is one.
pub validate_backend : Env → Backend → Option Bytes
unfolding or_value
validate_backend env ollama = none
validate_backend env open_ai =
    if bytes_eq (or_value (env "EMBEDDING_API_KEY") (env "OPENAI_API_KEY")) []
    then some (
        codes
          "embedder: QDRANT_HOST is set but no OpenAI API key found — set OPENAI_API_KEY or EMBEDDING_API_KEY")
    else none
validate_backend env azure =
    if bytes_eq (or_value (env "EMBEDDING_API_KEY") (env "AZURE_OPENAI_API_KEY")) []
    then some (
        codes
          "embedder: QDRANT_HOST is set but no Azure API key found — set AZURE_OPENAI_API_KEY or EMBEDDING_API_KEY")
    else if bytes_eq (or_value (env "EMBEDDING_ENDPOINT") (env "AZURE_OPENAI_ENDPOINT")) []
    then some (
        codes
          "embedder: QDRANT_HOST is set but no Azure endpoint found — set AZURE_OPENAI_ENDPOINT or EMBEDDING_ENDPOINT")
    else none
validate_backend env bedrock = some (
    codes
      "embedder: QDRANT_HOST is set but bedrock embedding is not yet implemented — set EMBEDDING_PROVIDER to ollama, openai, or azure")
validate_backend env gemini = some (
    codes
      "embedder: QDRANT_HOST is set but gemini embedding is not yet implemented — set EMBEDDING_PROVIDER to ollama, openai, or azure")
validate_backend env (unknown name) = none

-- ValidateForRAG
pub validate_for_rag : Env → Option Bytes
unfolding validate_backend resolve_backend
validate_for_rag env =
    if bytes_eq (env "QDRANT_HOST") []
    then none
    else validate_backend env (backend_of (resolve_backend env))
