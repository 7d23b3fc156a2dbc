-- ===== src/Config/Tests.antt =====
-- A run of the configuration file at a concrete input.
use tfai_go.Base.{
  ok, ◌≡◌, refl, true, false, ℕ, none, [], codes, Env, bytes_eq, str_eq, if◌then◌else◌, ◌==◌,
}
use tfai_go.Config.Types.{Numbers, YamlConfig}
use tfai_go.Config.{Files, load, env_mapping, resolve_config_path}
use tfai_go.Config.Load.{Found, env_or_file, load-env_or_file}

abbrev num : Numbers
num = record {
  Int = ℕ;
  Float = ℕ;
  is_zero = λ n. n == 0;
  format_int = λ n. codes "6";
  is_zero_float = λ n. n == 0;
  format_4f = λ n. codes "0.2000";
}

abbrev cfg : YamlConfig num
cfg = record {
  model = record {
    provider = codes "openai";
    max_tokens = 6;
    temperature = 2;
    ollama = record { host = []; model = [] };
    openai = record { api_key = codes "k"; model = [] };
    azure = record { api_key = []; endpoint = []; deployment = []; api_version = [] };
    bedrock = record { region = []; model_id = [] };
    gemini = record { api_key = []; model = [] };
  };
  embedding = record { provider = []; model = []; dimensions = 0; api_key = []; endpoint = [] };
  qdrant = record { host = []; port = 0; collection = []; api_key = []; tls = false };
  server = record { host = []; port = 0; api_key = codes "top" };
  logging = record { level = []; format = [] };
  history = record { db_path = [] };
  tracing = record { public_key = []; secret_key = []; host = [] };
}

abbrev env : Env
env key = if str_eq key "MODEL_PROVIDER" then codes "ollama" else []

abbrev files : Files num
files = record {
  home = none;
  stat = λ path. true;
  read = λ path. ok (codes "yaml");
  unmarshal = λ text. ok cfg;
}

found : Found num files env (codes "c.yaml") cfg
unfolding resolve_config_path bytes_eq
found = record {
  path = codes "c.yaml";
  text = codes "yaml";
  resolved = refl;
  filled = refl;
  read_ok = refl;
  decoded = refl;
}

load-env_or_file_example :
    (load num files env (codes "c.yaml")).0 "MODEL_PROVIDER"
    ≡ env_or_file num env cfg (env_mapping num) "MODEL_PROVIDER"
load-env_or_file_example =
    load-env_or_file num files env (codes "c.yaml") cfg "MODEL_PROVIDER" found
