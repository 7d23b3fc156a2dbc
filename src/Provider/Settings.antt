-- ===== src/Provider/Settings.antt =====
-- The records of internal/provider/interface.go, Validate, the health checks, and the case split on the
-- deployment name of internal/provider/backends.go.
use tfai_go.Backend.{Backend, ollama, open_ai, azure, bedrock, gemini, unknown, backend_of}
use tfai_go.Base.{
  Bool, false, Option, none, some, List, [], ◌∷◌, ◌++◌, Bytes, codes, bytes_eq, has_prefix,
  to_lower, ℤ, not, ◌||◌, if◌then◌else◌,
}

pub record Codex : Type 0 where
  pub enabled : Bool
  pub model : Bytes
  pub default_max_tokens : ℤ
  pub default_context : ℤ
  pub hard_max_tokens : ℤ
  pub hard_max_context_tokens : ℤ

-- ProviderAzureOpenAI
pub record ProviderAzure : Type 0 where
  pub api_key : Bytes
  pub endpoint : Bytes
  pub deployment : Bytes
  pub api_version : Bytes
  pub reasoning_override : Option Bool
  pub codex : Option Codex

pub record ProviderBedrock : Type 0 where
  pub aws_region : Bytes
  pub model_id : Bytes

pub record ProviderGemini : Type 0 where
  pub api_key : Bytes
  pub model : Bytes

-- ProviderOpenAI
pub record ProviderOpenAi : Type 0 where
  pub api_key : Bytes
  pub model : Bytes

pub record ProviderOllama : Type 0 where
  pub host : Bytes
  pub model : Bytes

pub record SharedTuning (Float : Type 0) : Type 0 where
  pub max_tokens : ℤ
  pub temperature : Float

pub record GenerateOverrides : Type 0 where
  pub backend : Bytes
  pub deployment : Bytes
  pub version : Bytes
  pub model : Bytes
  pub model_id : Bytes

pub record Config (Float : Type 0) : Type 0 where
  pub backend : Bytes
  pub generate : Option GenerateOverrides
  pub azure_open_ai : ProviderAzure
  pub bedrock : ProviderBedrock
  pub gemini : ProviderGemini
  pub open_ai : ProviderOpenAi
  pub ollama : ProviderOllama
  pub tuning : SharedTuning Float

-- isCodexEnabled
pub is_codex_enabled : ProviderAzure → Bool
is_codex_enabled c = elim c.codex [ none ↦ false | some c ↦ c.enabled ]

-- isAzureReasoningModel
pub has_reasoning_prefix : Bytes → List Bytes → Bool
has_reasoning_prefix name [] = false
has_reasoning_prefix name (prefix ∷ prefixes) =
    bytes_eq name prefix
    || has_prefix name (prefix ++ codes "-")
    || has_prefix name (prefix ++ codes ".")
    || has_reasoning_prefix name prefixes

pub is_azure_reasoning_model : Bytes → Bool
unfolding has_reasoning_prefix
is_azure_reasoning_model deployment =
    has_reasoning_prefix (to_lower deployment)
      (codes "o1" ∷ codes "o2" ∷ codes "o3" ∷ codes "o4" ∷ codes "codex" ∷ [])

-- What newAzure asks of the Azure endpoint besides the credentials; `codex` stands for newAzureCodex.
pub data AzureRequest (Float : Type 0) : Type 0 where
  codex : AzureRequest Float
  completion : ℤ → AzureRequest Float
  tuned : ℤ → Float → AzureRequest Float

-- A check of Validate: the error of the backend if the value is missing, and then the other checks.
abbrev pub requires : Bytes → Bytes → Bytes → Option Bytes → Option Bytes
requires backend value name rest =
    if bytes_eq value []
    then some
        (codes "provider: \"" ++ backend ++ codes "\" requires " ++ name ++ codes " to be set")
    else rest

module _ {Float : Type 0} where
  -- newAzure
  pub azure_request : Config Float → AzureRequest Float
  unfolding is_codex_enabled is_azure_reasoning_model
  azure_request cfg =
      let reasoning : Bool = elim cfg.azure_open_ai.reasoning_override [
        | none ↦ is_azure_reasoning_model cfg.azure_open_ai.deployment
        | some b ↦ b
      ] in
      if is_codex_enabled cfg.azure_open_ai
      then codex
      else if reasoning
      then completion cfg.tuning.max_tokens
      else tuned cfg.tuning.max_tokens cfg.tuning.temperature

  pub validate_backend : Config Float → Backend → Option Bytes
  unfolding is_codex_enabled
  validate_backend c ollama = requires c.backend c.ollama.model (codes "OLLAMA_MODEL") none
  validate_backend c open_ai =
      requires c.backend c.open_ai.api_key (codes "OPENAI_API_KEY")
        (requires c.backend c.open_ai.model (codes "OPENAI_MODEL") none)
  validate_backend c azure =
      requires c.backend c.azure_open_ai.api_key (codes "AZURE_OPENAI_API_KEY") (
        requires c.backend c.azure_open_ai.endpoint (codes "AZURE_OPENAI_ENDPOINT") (
          if not (is_codex_enabled c.azure_open_ai)
          then requires c.backend c.azure_open_ai.deployment (codes "AZURE_OPENAI_DEPLOYMENT") none
          else none))
  validate_backend c bedrock =
      requires c.backend c.bedrock.model_id (codes "BEDROCK_MODEL_ID")
        (requires c.backend c.bedrock.aws_region (codes "AWS_REGION") none)
  validate_backend c gemini =
      requires c.backend c.gemini.api_key (codes "GOOGLE_API_KEY")
        (requires c.backend c.gemini.model (codes "GEMINI_MODEL") none)
  validate_backend c (unknown name) = some (
      codes "provider: unknown backend \""
      ++ name
      ++ codes "\" — valid values: ollama, openai, azure, bedrock, gemini")

  -- Validate
  pub validate : Config Float → Option Bytes
  unfolding validate_backend
  validate c = validate_backend c (backend_of c.backend)

-- How a health check proves who asks.
pub data Check : Type 0 where
  http_get_check bearer_auth_check azure_api_key_check : Check

pub record HealthCheckConfig : Type 0 where
  pub url : Bytes
  pub provider_type : Bytes
  pub api_key : Bytes
  pub check : Check

module _ {Float : Type 0} where
  pub health_check : Bytes → Config Float → Backend → Option HealthCheckConfig
  unfolding is_codex_enabled
  health_check b cfg ollama = some (record {
    url = cfg.ollama.host ++ codes "/api/tags";
    provider_type = b;
    api_key = [];
    check = http_get_check;
  })
  health_check b cfg open_ai = some (record {
    url = codes "https://api.openai.com/v1/models";
    provider_type = b;
    api_key = cfg.open_ai.api_key;
    check = bearer_auth_check;
  })
  health_check b cfg azure = some (record {
    url =
        cfg.azure_open_ai.endpoint
        ++ codes "/openai/models?api-version="
        ++ cfg.azure_open_ai.api_version;
    provider_type = b;
    api_key = cfg.azure_open_ai.api_key;
    check = if is_codex_enabled cfg.azure_open_ai then bearer_auth_check else azure_api_key_check;
  })
  health_check b cfg bedrock = some (record {
    url = codes "https://bedrock-runtime." ++ cfg.bedrock.aws_region ++ codes ".amazonaws.com";
    provider_type = b;
    api_key = [];
    check = http_get_check;
  })
  health_check b cfg gemini = some (record {
    url =
        codes "https://generativelanguage.googleapis.com/v1beta/models?key=" ++ cfg.gemini.api_key;
    provider_type = b;
    api_key = [];
    check = http_get_check;
  })
  health_check b cfg (unknown name) = none

  -- NewHealthCheckConfig
  pub new_health_check_config : Bytes → Config Float → Option HealthCheckConfig
  unfolding health_check
  new_health_check_config b cfg = health_check b cfg (backend_of b)
