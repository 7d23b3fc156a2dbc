-- ===== src/Commands/Ingest.antt =====
-- NewIngestCmd of cmd/tfai/commands/ingest.go, from the flags to the pipeline. Parameters: what the embedding
-- services answer, the Qdrant client, the HTTP client, SHA-256, url.Parse and strconv.Atoi. An embedding that the
-- OpenAI API does not give is none.
pub mod Stored
use tfai_go.Base.{
  ℕ, Bool, true, false, Option, none, some, List, [], ◌∷◌, ◌++◌, map, Bytes, codes, Env,
  get_env_or_default, Result, ok, err, ℤ,
}
use tfai_go.Agent.Messages.{decimal}
use tfai_go.Commands.{qdrant_config}
use tfai_go.Commands.Prompts.{Labels, ingest_sources}
use tfai_go.Embedder.{Embedder, ollama_embedder, open_ai_embedder, new_from_env, validate_for_rag}
use tfai_go.Embedder.Ollama.{OllamaRequest, OllamaReply, ollama_embed}
use tfai_go.Embedder.OpenAi.{Request, EmbedResponse, embed}
use tfai_go.Ingestion.{PipelineConfig, new_pipeline}
use tfai_go.Ingestion.ChunkId.{chunk_id}
use tfai_go.Ingestion.Fetch.{PageRequest, Page, fetch}
use tfai_go.Ingestion.Pipeline.{Source, Services, ingest}
use tfai_go.Rag.{Metadata, Point}
use tfai_go.Rag.Collection.{QdrantConfig, Client, new_qdrant_store}

-- What the command reaches outside.
pub record Outside (Vector : Type 0) : Type 0 where
  pub env : Env
  pub atoi : Bytes → Option ℤ
  pub parse_url : Bytes → Option (Bytes × Bytes)
  pub get_page : PageRequest → Result Page
  pub sum256 : Bytes → Bytes
  pub post_ollama : OllamaRequest → Result (OllamaReply Vector)
  pub post_open_ai : Request → Result (EmbedResponse Vector)
  pub qdrant : Client
  pub takes_payload : Metadata → Bool
  pub upsert_error : List (Point (Option Vector)) → Option Bytes

-- What a run leaves: the collections that Qdrant is asked to create, the batches that are stored, and the error.
pub record Ingested (Vector : Type 0) : Type 0 where
  pub created : List (Bytes × ℕ)
  pub stored : List (List (Point (Option Vector)))
  pub error : Option Bytes

module _ {Vector : Type 0} (o : Outside Vector) where
  all_given : Result (List Vector) → Result (List (Option Vector))
  all_given (ok vectors) = ok (map (λ v. some v) vectors)
  all_given (err message) = err message

  -- rag.Embedder: the client behind the interface
  pub embed_with : Embedder → List Bytes → Result (List (Option Vector))
  unfolding all_given
  embed_with (ollama_embedder cfg) texts = all_given (ollama_embed o.post_ollama cfg texts)
  embed_with (open_ai_embedder cfg) texts = embed o.post_open_ai cfg texts

  -- What the pipeline calls.
  pub services_of : PipelineConfig → Embedder → Services (Option Vector)
  unfolding embed_with
  services_of cfg emb = record {
    fetch = fetch o.get_page cfg.user_agent;
    embed = embed_with emb;
    takes = o.takes_payload;
    client_error = o.upsert_error;
    chunk_id = chunk_id o.sum256;
    format_int = decimal;
  }

  -- The settings of the collection, with the host that the command falls back to.
  pub ingest_config : QdrantConfig
  ingest_config =
      qdrant_config o.atoi o.env (get_env_or_default o.env "QDRANT_HOST" (codes "localhost"))

  pub refused : List (Bytes × ℕ) → Bytes → Ingested Vector
  refused created message = record { created = created; stored = []; error = some message }

  pub ended :
      List (Bytes × ℕ) → List (List (Point (Option Vector))) × Option Bytes → Ingested Vector
  ended created (stored, none) = record { created = created; stored = stored; error = none }
  ended created (stored, some message) = record {
    created = created;
    stored = stored;
    error = some (codes "ingest: pipeline failed: " ++ message);
  }

  pub with_pipeline :
      List Source → Embedder → List (Bytes × ℕ) → Option PipelineConfig → Ingested Vector
  unfolding services_of ended refused
  with_pipeline sources emb created none =
      refused created (codes "ingest: failed to create pipeline")
  with_pipeline sources emb created (some cfg) =
      ended created (ingest (services_of cfg emb) cfg sources [])

  pub with_store : List Source → Embedder → List (Bytes × ℕ) × Option Bytes → Ingested Vector
  unfolding with_pipeline
  with_store sources emb (created, some message) =
      refused created (codes "ingest: failed to connect to Qdrant: " ++ message)
  with_store sources emb (created, none) =
      with_pipeline sources emb created (new_pipeline true true none)

  pub with_embedder : List Source → Result Embedder → Ingested Vector
  unfolding with_store ingest_config
  with_embedder sources (err message) =
      refused [] (codes "ingest: failed to initialise embedder: " ++ message)
  with_embedder sources (ok emb) = with_store sources emb (new_qdrant_store o.qdrant ingest_config)

  pub validated : List Source → Option Bytes → Ingested Vector
  unfolding with_embedder
  validated sources (some message) = refused [] (codes "ingest: " ++ message)
  validated sources none = with_embedder sources (new_from_env o.atoi o.env)

  pub with_sources : Result (List Source) → Ingested Vector
  unfolding validated
  with_sources (err message) = refused [] message
  with_sources (ok sources) = validated sources (validate_for_rag o.env)

  -- NewIngestCmd, of its flags
  pub run_ingest : Labels → List Bytes → Ingested Vector
  unfolding with_sources
  run_ingest labels urls = with_sources (ingest_sources o.parse_url labels urls)
