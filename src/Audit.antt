-- ===== src/Audit.antt =====
-- internal/audit/audit.go: what the log of a command's start shows of the environment.
pub mod Secrets
use tfai_go.Base.{
  ℕ, Bool, true, false, Option, none, some, List, [], ◌∷◌, ◌++◌, map, Bytes, codes, bytes_eq,
  has_prefix, drop, length, String, str_eq, Env, ◌||◌, if◌then◌else◌,
}

-- The keys of the map secretEnvKeys.
abbrev pub secret_env_keys : List String
secret_env_keys =
    "OPENAI_API_KEY" ∷ "AZURE_OPENAI_API_KEY" ∷ "GOOGLE_API_KEY" ∷ "EMBEDDING_API_KEY"
    ∷ "QDRANT_API_KEY" ∷ "TFAI_API_KEY" ∷ "LANGFUSE_PUBLIC_KEY" ∷ "LANGFUSE_SECRET_KEY"
    ∷ "AWS_SECRET_ACCESS_KEY" ∷ "AWS_SESSION_TOKEN" ∷ []

pub holds_key : List String → String → Bool
holds_key [] key = false
holds_key (k ∷ ks) key = str_eq k key || holds_key ks key

-- secretEnvKeys[key]
unfoldable pub is_secret : String → Bool
unfolding holds_key
is_secret key = holds_key secret_env_keys key

-- presence
pub presence : Bytes → Bytes
presence v = if bytes_eq v [] then codes "unset" else codes "set"

-- valOrUnset
pub val_or_unset : Bytes → Bytes
val_or_unset v = if bytes_eq v [] then codes "unset" else v

-- SanitiseKey
pub sanitise_key : String → Bytes → Bytes
sanitise_key key value = if is_secret key then presence value else val_or_unset value

-- auditEntry
pub record AuditEntry : Type 0 where
  pub key : String
  pub secret : Bool

abbrev entry : String → Bool → AuditEntry
entry k s = record { key = k; secret = s }

-- auditKeys
abbrev pub audit_keys : List AuditEntry
audit_keys =
    entry "MODEL_PROVIDER" false
    ∷ entry "OLLAMA_HOST" false
    ∷ entry "OLLAMA_MODEL" false
    ∷ entry "OPENAI_API_KEY" true
    ∷ entry "OPENAI_MODEL" false
    ∷ entry "AZURE_OPENAI_API_KEY" true
    ∷ entry "AZURE_OPENAI_ENDPOINT" false
    ∷ entry "AZURE_OPENAI_DEPLOYMENT" false
    ∷ entry "AZURE_OPENAI_CODEX" false
    ∷ entry "AZURE_OPENAI_CODEX_MODEL" false
    ∷ entry "GOOGLE_API_KEY" true
    ∷ entry "GEMINI_MODEL" false
    ∷ entry "AWS_REGION" false
    ∷ entry "BEDROCK_MODEL_ID" false
    ∷ entry "EMBEDDING_PROVIDER" false
    ∷ entry "EMBEDDING_MODEL" false
    ∷ entry "EMBEDDING_API_KEY" true
    ∷ entry "QDRANT_HOST" false
    ∷ entry "QDRANT_PORT" false
    ∷ entry "QDRANT_COLLECTION" false
    ∷ entry "QDRANT_API_KEY" true
    ∷ entry "TFAI_API_KEY" true
    ∷ entry "TFAI_HISTORY_DB" false
    ∷ entry "LOG_LEVEL" false
    ∷ entry "LOG_FORMAT" false
    ∷ entry "LANGFUSE_PUBLIC_KEY" true
    ∷ entry "LANGFUSE_SECRET_KEY" true
    ∷ []

pub home_tilde : Bytes → Option Bytes → Bytes
home_tilde p none = p
home_tilde p (some home) = if has_prefix p home then codes "~" ++ drop (length home) p else p

-- sanitiseConfigPath; the home directory is none if it cannot be told
pub sanitise_config_path : Option Bytes → Bytes → Bytes
unfolding home_tilde
sanitise_config_path home p = if bytes_eq p [] then codes "none" else home_tilde p home

abbrev pub Attr : Type 0
Attr = String × Bytes

-- The loop of LogCommandStart over the audit keys.
pub env_attrs : List AuditEntry → Env → List Attr
env_attrs [] env = []
env_attrs (e ∷ es) env =
    (e.key, if e.secret then presence (env e.key) else val_or_unset (env e.key)) ∷ env_attrs es env

-- LogCommandStart: the attributes of the log entry
pub log_command_start : Option Bytes → Env → Bytes → Bytes → List Attr
log_command_start home env command config_path =
    ("command", command)
    ∷ ("config_file", sanitise_config_path home config_path)
    ∷ env_attrs audit_keys env
