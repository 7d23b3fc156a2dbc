-- ===== src/Commands/Tests.antt =====
-- Runs of the commands' helpers at concrete inputs.
use tfai_go.Base.{
  true, false, ◌≡◌, ◌↔◌, [], none, some, ok, Bytes, codes, Option, ℤ, Env, set_env, ℕ, ◌-◌, not,
  ◌==◌, err, map, List, ◌∷◌, All,
}
use tfai_go.Disk.{Os, missing}
use tfai_go.Provider.FromEnv.{config_from_env}
use tfai_go.RateLimit.{Rate}
use tfai_go.Server.Lifecycle.{cancelled}
use tfai_go.Ingestion.Metadata.{infer_metadata}
use tfai_go.Commands.Prompts.{Labels, source_of, plan_content}
use tfai_go.Commands.Ingest.{Outside, run_ingest}
use tfai_go.Commands.Ingest.Stored.{IsAccounted, run_ingest-IsAccounted}
use tfai_go.Commands.Run.{
  Host, qdrant_connection, probe_connection, run_ask, run_generate, run_diagnose,
}
use tfai_go.Commands.Run.Held.{Leaves, opened}
use tfai_go.Commands.Run.Released.{if_ok, after_setup}
use tfai_go.Commands.Serve.{Command, run_serve}
use tfai_go.Commands.Serve.Released.{served, commands-Leaves}
use tfai_go.Commands.Serve.Started.{Started, probes_given, history_given, run_serve-Started}
use tfai_go.Rag.Collection.{QdrantConfig, Client}
use tfai_go.Commands.{RagSetup, build_retriever}
use tfai_go.Commands.Retriever.{IsFitting, build_retriever-IsFitting}

abbrev env : Env
env = set_env (λ key. []) "QDRANT_HOST" (codes "localhost")

abbrev atoi : Bytes → Option ℤ
atoi text = none

abbrev connect : QdrantConfig → Option Bytes
connect cfg = none

build_retriever-IsFitting_example :
    ((build_retriever atoi connect env ≡ ok none) ↔ (env "QDRANT_HOST" ≡ []))
    × ((r : RagSetup)
        → build_retriever atoi connect env ≡ ok (some r)
        → IsFitting atoi connect env r)
build_retriever-IsFitting_example = build_retriever-IsFitting atoi connect env

abbrev no_labels : Labels
no_labels = record { provider = none; framework = none; doc_type = none }

abbrev urls : List Bytes
urls = codes "https://atmos.tools/core-concepts" ∷ []

abbrev client : Client
client = record {
  client_error = λ cfg. none;
  collection_exists = λ name. ok false;
  create_error = λ name size. none;
}

abbrev outside : Outside ℕ
outside = record {
  env = env;
  atoi = atoi;
  parse_url = λ url. none;
  get_page = λ req. ok (record { status = 200; body = ok (codes "stacks") });
  sum256 = λ s. s;
  post_ollama = λ req.
      ok (record { status = 200; decoded = ok (record { embeddings = 7 ∷ []; error = [] }) });
  post_open_ai = λ req. err (codes "refused");
  qdrant = client;
  takes_payload = λ payload. true;
  upsert_error = λ points. none;
}

run_ingest-IsAccounted_example :
    IsAccounted outside
      (map (source_of (infer_metadata (λ url. none)) no_labels) urls)
      (run_ingest outside no_labels urls)
run_ingest-IsAccounted_example = run_ingest-IsAccounted outside no_labels urls

-- A host with every service, and a model that is its number.
abbrev host : Host ℕ ℕ ℕ
host = record {
  env = env;
  atoi = atoi;
  settings = config_from_env atoi (λ text. none) 0 env;
  construct = λ backend cfg. ok 1;
  find_terraform = ok 2;
  qdrant = client;
  react_error = λ tools. none;
  query_error = λ parts q. none;
  abs = λ path. ok (codes "/w");
  quote = λ text. text;
}

abbrev rate : Rate
rate = record {
  Limit = ℕ;
  Limiter = ℕ;
  new_limiter = λ rps burst. burst;
  allow = λ l now. (not (l == 0), l - 1);
}

abbrev os : Os
os = record {
  write_error = λ tree path. none;
  mkdir_error = λ tree path. none;
  read_error = λ tree path. none;
  stat_error = λ tree path. none;
}

abbrev command : Command rate (λ n. n == 0) (λ n. n) 0
command = record {
  host = codes "127.0.0.1";
  port = 8080;
  workspace_root = some (codes "w");
  os = os;
  tree = λ path. missing;
  home = ok (codes "/home/u");
  database = record { open_error = λ dsn. none; ddl_error = λ dsn. none };
  static_error = none;
  new_client = λ name port. some (record { name = codes "qdrant"; ping = none });
  llm_health = some none;
  llm_generated = ok true;
  ending = cancelled none;
}

-- The command with a server whose QDRANT_HOST answers keeps the client of the probe.
commands-Leaves_example :
    Leaves probe_connection
      (after_setup probe_connection host (λ s. 0))
      (run_ask host (codes "/w") (codes "why?"))
    × Leaves probe_connection
        (after_setup probe_connection host (λ s. 0))
        (run_generate host (codes ".") (codes "a bucket"))
    × Leaves probe_connection
        (if_ok (plan_content [] (λ path. err path) (ok true) (ok (codes "plan"))) (λ content.
          after_setup probe_connection host (opened probe_connection qdrant_connection)))
        (run_diagnose host [] (codes "/w") (λ path. err path) (ok true) (ok (codes "plan")))
    × Leaves probe_connection
        (served probe_connection rate (λ n. n == 0) (λ n. n) 0 host command)
        (run_serve rate (λ n. n == 0) (λ n. n) 0 host command)
commands-Leaves_example =
    commands-Leaves probe_connection rate (λ n. n == 0) (λ n. n) 0 host command (codes "/w")
      (codes "why?") (codes ".") (codes "a bucket") [] (λ path. err path) (ok true)
      (ok (codes "plan"))

run_serve-Started_example :
    All
      (Started host
        (probes_given rate (λ n. n == 0) (λ n. n) 0 host command)
        (history_given rate (λ n. n == 0) (λ n. n) 0 host command)
        (some (codes "w")))
      (run_serve rate (λ n. n == 0) (λ n. n) 0 host command).0
run_serve-Started_example = run_serve-Started rate (λ n. n == 0) (λ n. n) 0 host command
