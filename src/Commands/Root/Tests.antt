-- ===== src/Commands/Root/Tests.antt =====
-- Two starts of a command, with files that differ in a secret.
use tfai_go.Base.{
  ok, arith, Bool, not, ◌&&◌, if◌then◌else◌, bytes_eq_sound, List, ◌∷◌, ◌≡◌, refl, true, false, ℕ,
  none, [], codes, Bytes, Env, bytes_eq, ◌==◌, All,
}
use tfai_go.Audit.{is_secret}
use tfai_go.Audit.Secrets.{SamePublic}
use tfai_go.Config.Types.{Numbers, YamlConfig}
use tfai_go.Config.{Files, Row, env_mapping, is_skipped}
use tfai_go.Commands.Root.{pre_run}
use tfai_go.Commands.Root.Secrets.{IsSameRow, SameConfig, SameFiles, pre_run-SamePublic}

abbrev num : Numbers
num = record {
  Int = ℕ;
  Float = ℕ;
  is_zero = λ n. n == 0;
  format_int = λ n. codes "6";
  is_zero_float = λ n. n == 0;
  format_4f = λ n. codes "0.2000";
}

-- A configuration with a key for OpenAI.
abbrev with_key : Bytes → YamlConfig num
with_key key = record {
  model = record {
    provider = codes "openai";
    max_tokens = 6;
    temperature = 2;
    ollama = record { host = []; model = [] };
    openai = record { api_key = key; model = [] };
    azure = record { api_key = []; endpoint = []; deployment = []; api_version = [] };
    bedrock = record { region = []; model_id = [] };
    gemini = record { api_key = []; model = [] };
  };
  embedding = record { provider = []; model = []; dimensions = 0; api_key = []; endpoint = [] };
  qdrant = record { host = []; port = 0; collection = []; api_key = []; tls = false };
  server = record { host = []; port = 0; api_key = [] };
  logging = record { level = codes "debug"; format = [] };
  history = record { db_path = [] };
  tracing = record { public_key = []; secret_key = []; host = [] };
}

abbrev files : Bytes → Files num
files key = record {
  home = none;
  stat = λ path. true;
  read = λ path. ok (codes "yaml");
  unmarshal = λ text. ok (with_key key);
}

abbrev env : Env
env key = []

env-SamePublic : SamePublic env env
env-SamePublic = record { public = λ k s. refl; secret = λ k s. refl }

-- The rows are alike in both files.
abbrev are_alike : YamlConfig num → YamlConfig num → List (Row num) → Bool
are_alike c d [] = true
are_alike c d ((key, value) ∷ rows) =
    (if is_secret key
      then (if is_skipped num (value c)
          then is_skipped num (value d)
          else not (is_skipped num (value d)))
      else bytes_eq (value c) (value d))
    && are_alike c d rows

alike-IsSameRow :
    (c d : YamlConfig num) (rows : List (Row num))
    → are_alike c d rows ≡ true
    → All (IsSameRow num c d) rows
alike-IsSameRow c d [] h = tt
alike-IsSameRow c d ((key, value) ∷ rows) h = (
  record {
    public = λ e. bytes_eq_sound (value c) (value d) (ground arith);
    secret = λ e. ground arith;
  },
  alike-IsSameRow c d rows (ground arith),
)

other_key : SameConfig num (with_key (codes "k")) (with_key (codes "l"))
unfolding is_secret is_skipped bytes_eq tfai_go.Config.int_str tfai_go.Config.float32_str
    tfai_go.Config.bool_str
other_key = alike-IsSameRow (with_key (codes "k")) (with_key (codes "l")) (env_mapping num) refl

other_files : SameFiles num (files (codes "k")) (files (codes "l"))
other_files = record { home = refl; stat = λ path. refl; text = λ path. other_key }

pre_run-SamePublic_example :
    ((pre_run num (files (codes "k")) env [] (codes "ask")).1
      ≡ (pre_run num (files (codes "l")) env [] (codes "ask")).1)
    × SamePublic
        (pre_run num (files (codes "k")) env [] (codes "ask")).0
        (pre_run num (files (codes "l")) env [] (codes "ask")).0
pre_run-SamePublic_example =
    pre_run-SamePublic num (files (codes "k")) (files (codes "l")) env env [] (codes "ask")
      other_files env-SamePublic
