-- ===== src/Config.antt =====
-- internal/config/config.go: the YAML file, its search, and its application to the environment.
-- The YAML decoder is gopkg.in/yaml.v3, a parameter; so are integers and floats, of which the code
-- asks whether they are zero and how they print. os.Setenv is taken to succeed.
pub mod Types
pub mod Load
mod Tests
use tfai_go.Base.{
  trim_right_byte, ◌&&◌, not, ℕ, suc, ◌≡◌, Bool, true, false, Option, none, some, List, [], ◌∷◌,
  ◌++◌, Bytes, codes, bytes_eq, String, str_eq, Result, ok, err, Env, set_env, ◌==◌, ◌||◌,
  if◌then◌else◌,
}
use tfai_go.Path.{join}
use tfai_go.Config.Types.{Numbers, YamlConfig}

module _ (num : Numbers) where
  open num use {Int, Float, is_zero, format_int, is_zero_float, format_4f}

  -- intStr
  unfoldable pub int_str : Int → Bytes
  int_str v = if is_zero v then [] else format_int v

  -- float32Str
  unfoldable pub float32_str : Float → Bytes
  unfolding trim_right_byte
  float32_str v =
      if is_zero_float v then [] else trim_right_byte b'.' (trim_right_byte b'0' (format_4f v))

  -- boolStr
  unfoldable pub bool_str : Bool → Bytes
  bool_str v = if v then codes "true" else []

  -- A row of envMapping: the variable, and its value in a configuration.
  abbrev pub Row : Type 0
  Row = String × (YamlConfig num → Bytes)

  -- envMapping
  abbrev pub env_mapping : List Row
  env_mapping =
      ("MODEL_PROVIDER", λ c. c.model.provider)
      ∷ ("MODEL_MAX_TOKENS", λ c. int_str c.model.max_tokens)
      ∷ ("MODEL_TEMPERATURE", λ c. float32_str c.model.temperature)
      ∷ ("OLLAMA_HOST", λ c. c.model.ollama.host)
      ∷ ("OLLAMA_MODEL", λ c. c.model.ollama.model)
      ∷ ("OPENAI_API_KEY", λ c. c.model.openai.api_key)
      ∷ ("OPENAI_MODEL", λ c. c.model.openai.model)
      ∷ ("AZURE_OPENAI_API_KEY", λ c. c.model.azure.api_key)
      ∷ ("AZURE_OPENAI_ENDPOINT", λ c. c.model.azure.endpoint)
      ∷ ("AZURE_OPENAI_DEPLOYMENT", λ c. c.model.azure.deployment)
      ∷ ("AZURE_OPENAI_API_VERSION", λ c. c.model.azure.api_version)
      ∷ ("AWS_REGION", λ c. c.model.bedrock.region)
      ∷ ("BEDROCK_MODEL_ID", λ c. c.model.bedrock.model_id)
      ∷ ("GOOGLE_API_KEY", λ c. c.model.gemini.api_key)
      ∷ ("GEMINI_MODEL", λ c. c.model.gemini.model)
      ∷ ("EMBEDDING_PROVIDER", λ c. c.embedding.provider)
      ∷ ("EMBEDDING_MODEL", λ c. c.embedding.model)
      ∷ ("EMBEDDING_DIMENSIONS", λ c. int_str c.embedding.dimensions)
      ∷ ("EMBEDDING_API_KEY", λ c. c.embedding.api_key)
      ∷ ("EMBEDDING_ENDPOINT", λ c. c.embedding.endpoint)
      ∷ ("QDRANT_HOST", λ c. c.qdrant.host)
      ∷ ("QDRANT_PORT", λ c. int_str c.qdrant.port)
      ∷ ("QDRANT_COLLECTION", λ c. c.qdrant.collection)
      ∷ ("QDRANT_API_KEY", λ c. c.qdrant.api_key)
      ∷ ("QDRANT_TLS", λ c. bool_str c.qdrant.tls)
      ∷ ("LOG_LEVEL", λ c. c.logging.level)
      ∷ ("LOG_FORMAT", λ c. c.logging.format)
      ∷ ("TFAI_HISTORY_DB", λ c. c.history.db_path)
      ∷ ("LANGFUSE_PUBLIC_KEY", λ c. c.tracing.public_key)
      ∷ ("LANGFUSE_SECRET_KEY", λ c. c.tracing.secret_key)
      ∷ ("LANGFUSE_HOST", λ c. c.tracing.host)
      ∷ []

  -- The values of the file that are passed over.
  unfoldable pub is_skipped : Bytes → Bool
  is_skipped v = bytes_eq v [] || bytes_eq v (codes "0") || bytes_eq v (codes "false")

  -- One round of the loop of Load: the environment, and the count of variables that it set.
  unfoldable pub apply_row : YamlConfig num → Row → Env × ℕ → Env × ℕ
  apply_row cfg (key, value) (env, applied) =
      if is_skipped (value cfg)
      then (env, applied)
      else if bytes_eq (env key) []
      then (set_env env key (value cfg), suc applied)
      else (env, applied)

  -- The loop of Load over the mapping.
  unfoldable pub apply_rows : YamlConfig num → List Row → Env × ℕ → Env × ℕ
  apply_rows cfg [] state = state
  apply_rows cfg (row ∷ rows) state = apply_rows cfg rows (apply_row cfg row state)

  -- Load, on what it finds of the process: the environment, the home directory (none if it cannot
  -- be told), the files that exist, and what reading and decoding one gives, with the texts of the errors.
  pub record Files : Type 0 where
    pub home : Option Bytes
    pub stat : Bytes → Bool
    pub read : Bytes → Result Bytes
    pub unmarshal : Bytes → Result (YamlConfig num)

  unfoldable pub or_local : Files → Bytes
  or_local files = if files.stat (codes "tfai.yaml") then codes "tfai.yaml" else []

  unfoldable pub home_or_local : Files → Option Bytes → Bytes
  unfolding or_local
  home_or_local files none = or_local files
  home_or_local files (some home) =
      let p = join (join home (codes ".tfai")) (codes "config.yaml") in
      if files.stat p then p else or_local files

  -- resolveConfigPath: the empty text if there is no file
  unfoldable pub resolve_config_path : Files → Env → Bytes → Bytes
  unfolding home_or_local
  resolve_config_path files env explicit =
      if not (bytes_eq explicit [])
      then (if files.stat explicit then explicit else [])
      else if not (bytes_eq (env "TFAI_CONFIG") []) && files.stat (env "TFAI_CONFIG")
      then env "TFAI_CONFIG"
      else home_or_local files files.home

  pub data Loaded : Type 0 where
    -- the path that was loaded, empty if no file was found
    loaded : Bytes → ℕ → Loaded
    -- the error, with the one that it wraps
    read_failed parse_failed : Bytes → Loaded

  unfoldable pub apply_config : Env → Bytes → Result (YamlConfig num) → Env × Loaded
  apply_config env path (err e) =
      (env, parse_failed (codes "config: failed to parse " ++ path ++ codes ": " ++ e))
  apply_config env path (ok cfg) =
      let (env', applied) = apply_rows cfg env_mapping (env, 0) in (env', loaded path applied)

  unfoldable pub apply_file : Files → Env → Bytes → Result Bytes → Env × Loaded
  unfolding apply_config
  apply_file files env path (err e) =
      (env, read_failed (codes "config: failed to read " ++ path ++ codes ": " ++ e))
  apply_file files env path (ok text) = apply_config env path (files.unmarshal text)

  -- Load
  unfoldable pub load : Files → Env → Bytes → Env × Loaded
  unfolding apply_file
  load files env explicit =
      let path = resolve_config_path files env explicit in
      if bytes_eq path [] then (env, loaded [] 0) else apply_file files env path (files.read path)
