-- ===== src/Config/Types.antt =====
-- The structs of internal/config/config.go.
use tfai_go.Base.{Bool, Bytes}

-- What the code needs of `int` and `float32`: fmt.Sprintf with "%d" and with "%.4f".
pub record Numbers : Type 1 where
  pub Int : Type 0
  pub Float : Type 0
  pub is_zero : Int → Bool
  pub format_int : Int → Bytes
  pub is_zero_float : Float → Bool
  pub format_4f : Float → Bytes

pub record OllamaConfig : Type 0 where
  pub host : Bytes
  pub model : Bytes

pub record OpenAiConfig : Type 0 where
  pub api_key : Bytes
  pub model : Bytes

pub record AzureConfig : Type 0 where
  pub api_key : Bytes
  pub endpoint : Bytes
  pub deployment : Bytes
  pub api_version : Bytes

pub record BedrockConfig : Type 0 where
  pub region : Bytes
  pub model_id : Bytes

pub record GeminiConfig : Type 0 where
  pub api_key : Bytes
  pub model : Bytes

pub record LoggingConfig : Type 0 where
  pub level : Bytes
  pub format : Bytes

pub record HistoryConfig : Type 0 where
  pub db_path : Bytes

pub record TracingConfig : Type 0 where
  pub public_key : Bytes
  pub secret_key : Bytes
  pub host : Bytes

module _ (num : Numbers) where
  open num use {Int, Float}

  pub record ModelConfig : Type 0 where
    pub provider : Bytes
    pub max_tokens : Int
    pub temperature : Float
    pub ollama : OllamaConfig
    pub openai : OpenAiConfig
    pub azure : AzureConfig
    pub bedrock : BedrockConfig
    pub gemini : GeminiConfig

  pub record EmbeddingConfig : Type 0 where
    pub provider : Bytes
    pub model : Bytes
    pub dimensions : Int
    pub api_key : Bytes
    pub endpoint : Bytes

  pub record QdrantConfig : Type 0 where
    pub host : Bytes
    pub port : Int
    pub collection : Bytes
    pub api_key : Bytes
    pub tls : Bool

  pub record ServerConfig : Type 0 where
    pub host : Bytes
    pub port : Int
    pub api_key : Bytes

  -- Config
  pub record YamlConfig : Type 0 where
    pub model : ModelConfig
    pub embedding : EmbeddingConfig
    pub qdrant : QdrantConfig
    pub server : ServerConfig
    pub logging : LoggingConfig
    pub history : HistoryConfig
    pub tracing : TracingConfig
