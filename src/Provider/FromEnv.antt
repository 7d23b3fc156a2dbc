-- ===== src/Provider/FromEnv.antt =====
-- internal/provider/factory.go: the settings from the environment, the overrides for generation, and the models.
pub mod Generate
mod Tests
use tfai_go.Backend.{Backend, ollama, open_ai, azure, bedrock, gemini, unknown, backend_of}
use tfai_go.Base.{
  Bool, Option, none, some, [], ◌++◌, Bytes, codes, bytes_eq, Env, get_env_or_default, String,
  Result, ok, err, ℤ, pos, not, ◌||◌, ◌&&◌, if◌then◌else◌,
}
use tfai_go.Provider.Settings.{GenerateOverrides, Config, validate}

-- A value, or another where there is none.
abbrev pub or_parsed : {A : Type 0} → Option A → A → A
or_parsed none fallback = fallback
or_parsed (some v) fallback = v

-- getEnvInt and getEnvFloat32, of the parser that each uses
pub get_env_parsed : {A : Type 0} → (Bytes → Option A) → Env → String → A → A
get_env_parsed parse env key fallback =
    if bytes_eq (env key) [] then fallback else or_parsed (parse (env key)) fallback

-- getEnvBoolPtr
pub get_env_bool_ptr : Env → String → Option Bool
get_env_bool_ptr env key =
    if bytes_eq (env key) [] then none else some (bytes_eq (env key) (codes "true"))

module _ {Float : Type 0} (atoi : Bytes → Option ℤ) (parse_float : Bytes → Option Float)
    (default_temperature : Float) where
  -- ConfigFromEnv
  pub config_from_env : Env → Config Float
  unfolding get_env_parsed get_env_bool_ptr
  config_from_env env =
      let backend = get_env_or_default env "MODEL_PROVIDER" (codes "ollama") in
      let gen_backend = get_env_or_default env "GENERATE_MODEL_PROVIDER" (codes "ollama") in
      record {
        backend = backend;
        generate = some (record {
          backend =
              if bytes_eq gen_backend [] || bytes_eq gen_backend backend
              then backend
              else gen_backend;
          deployment = env "AZURE_OPENAI_DEPLOYMENT";
          version = get_env_or_default env "AZURE_OPENAI_API_VERSION" (codes "2025-04-01-preview");
          model = env "GENERATE_MODEL";
          model_id = env "GENERATE_MODEL_ID";
        });
        azure_open_ai = record {
          api_key = env "AZURE_OPENAI_API_KEY";
          endpoint = env "AZURE_OPENAI_ENDPOINT";
          deployment = env "AZURE_OPENAI_DEPLOYMENT";
          api_version =
              get_env_or_default env "AZURE_OPENAI_API_VERSION" (codes "2025-04-01-preview");
          reasoning_override = get_env_bool_ptr env "AZURE_OPENAI_REASONING";
          codex = some (record {
            enabled = bytes_eq (env "AZURE_OPENAI_CODEX") (codes "true");
            model = get_env_or_default env "AZURE_OPENAI_CODEX_MODEL" (codes "gpt-5.2-codex");
            default_max_tokens = pos 32768;
            default_context = pos 150000;
            hard_max_tokens = pos 65536;
            hard_max_context_tokens = pos 300000;
          });
        };
        bedrock = record {
          aws_region = get_env_or_default env "AWS_REGION" (codes "us-east-1");
          model_id = env "BEDROCK_MODEL_ID";
        };
        gemini = record {
          api_key = env "GOOGLE_API_KEY";
          model = get_env_or_default env "GEMINI_MODEL" (codes "gemini-1.5-pro");
        };
        open_ai = record {
          api_key = env "OPENAI_API_KEY";
          model = get_env_or_default env "OPENAI_MODEL" (codes "gpt-4o");
        };
        ollama = record {
          host = get_env_or_default env "OLLAMA_HOST" (codes "http://localhost:11434");
          model = get_env_or_default env "OLLAMA_MODEL" (codes "llama3");
        };
        tuning = record {
          max_tokens = get_env_parsed atoi env "MODEL_MAX_TOKENS" (pos 4096);
          temperature = get_env_parsed parse_float env "MODEL_TEMPERATURE" default_temperature;
        };
      }

-- An override: the variable, where it is not empty.
pub override : Bytes → Bytes → Bytes
override value old = if bytes_eq value [] then old else value

-- The backend that the overrides name, if there are any and they name one.
pub generate_backend : Option GenerateOverrides → Bytes → Bytes
generate_backend none backend = backend
generate_backend (some g) backend = if not (bytes_eq g.backend []) then g.backend else backend

-- No override is set, and no backend for generation.
pub no_overrides : Env → Bool
no_overrides env =
    bytes_eq (env "GENERATE_MODEL_PROVIDER") []
    && (bytes_eq (env "GENERATE_AZURE_DEPLOYMENT") []
        && bytes_eq (env "GENERATE_AZURE_VERSION") []
        && bytes_eq (env "GENERATE_MODEL") []
        && bytes_eq (env "GENERATE_MODEL_ID") [])

module _ {Float : Type 0} where
  -- The switch of WithGenerateOverrides on the backend.
  pub override_model : Env → Config Float → Backend → Config Float
  unfolding override
  override_model env c azure = record c {
    azure_open_ai = record c.azure_open_ai {
      deployment = override (env "GENERATE_AZURE_DEPLOYMENT") c.azure_open_ai.deployment;
      api_version = override (env "GENERATE_AZURE_VERSION") c.azure_open_ai.api_version;
    };
  }
  override_model env c open_ai = record c {
    open_ai = record c.open_ai { model = override (env "GENERATE_MODEL") c.open_ai.model };
  }
  override_model env c ollama = record c {
    ollama = record c.ollama { model = override (env "GENERATE_MODEL") c.ollama.model };
  }
  override_model env c gemini = record c {
    gemini = record c.gemini { model = override (env "GENERATE_MODEL") c.gemini.model };
  }
  override_model env c bedrock = record c {
    bedrock = record c.bedrock { model_id = override (env "GENERATE_MODEL_ID") c.bedrock.model_id };
  }
  override_model env c (unknown name) = c

  -- WithGenerateOverrides
  pub with_generate_overrides : Env → Config Float → Config Float
  unfolding override_model generate_backend no_overrides
  with_generate_overrides env c =
      let modified = record c { backend = generate_backend c.generate c.backend } in
      if no_overrides env then c else override_model env modified (backend_of modified.backend)

-- ModelCfg
pub record ModelCfg (Model : Type 0) : Type 0 where
  pub chat_model : Model
  pub generate_model : Model
  pub embedding_model : Model

module _ {Float : Type 0} {Model : Type 0} (construct : Backend → Config Float → Result Model) where
  pub construct_valid : Config Float → Option Bytes → Result Model
  construct_valid cfg (some message) = err message
  construct_valid cfg none = construct (backend_of cfg.backend) cfg

  -- New, whose constructors are `construct`
  pub new : Config Float → Result Model
  unfolding construct_valid
  new cfg = construct_valid cfg (validate cfg)

  pub with_generate : Model → Result Model → Result (ModelCfg Model)
  with_generate model (err message) =
      err (codes "generate: failed to initialize generation model provider: " ++ message)
  with_generate model (ok gen_model) =
      ok (record { chat_model = model; generate_model = gen_model; embedding_model = gen_model })

  -- The generation model: another one only if the overrides name another backend.
  pub generate_with : Env → Config Float → Model → Option GenerateOverrides → Result Model
  unfolding new with_generate_overrides
  generate_with env cfg model none = ok model
  generate_with env cfg model (some g) =
      if not (bytes_eq g.backend cfg.backend)
      then new (with_generate_overrides env cfg)
      else ok model

  pub with_chat : Env → Config Float → Result Model → Result (ModelCfg Model)
  unfolding with_generate generate_with
  with_chat env cfg (err message) =
      err (codes "generate: failed to initialize chat model provider: " ++ message)
  with_chat env cfg (ok model) = with_generate model (generate_with env cfg model cfg.generate)

  -- NewFromEnv, of the settings that ConfigFromEnv reads
  pub new_from_env : Env → Config Float → Result (ModelCfg Model)
  unfolding with_chat
  new_from_env env cfg = with_chat env cfg (new cfg)
