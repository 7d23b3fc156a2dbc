-- ===== src/Ingestion/Pipeline.antt =====
-- Ingest of internal/ingestion/pipeline.go: the loop over the sources. The calls it makes of fetch (see
-- Ingestion.Fetch), of chunkID (see Ingestion.ChunkId), of the embedding service and of the Qdrant client are
-- a record, as is the printing of a number.
pub mod Sequence
use tfai_go.Base.{
  ℕ, suc, Option, none, some, List, [], ◌∷◌, ◌++◌, Bytes, String, str_eq, Bool, Result, ok, err,
  if◌then◌else◌,
}
use tfai_go.Rag.{Metadata, Document, Point, upsert}
use tfai_go.Ingestion.{PipelineConfig, chunk}

-- Source
pub record Source : Type 0 where
  pub url : Bytes
  pub provider : Bytes
  pub resource_type : Bytes
  pub framework : Bytes
  pub doc_type : Bytes

pub record Services (Vector : Type 0) : Type 0 where
  pub fetch : Bytes → Result Bytes
  pub embed : List Bytes → Result (List Vector)
  pub takes : Metadata → Bool
  pub client_error : List (Point Vector) → Option Bytes
  pub chunk_id : Bytes → ℕ → Bytes
  pub format_int : ℕ → Bytes

module _ {Vector : Type 0} (services : Services Vector) where
  open services use {fetch, embed, takes, client_error, chunk_id, format_int}

  -- The metadata of a chunk.
  pub chunk_metadata : Source → ℕ → Metadata
  chunk_metadata src i key =
      if str_eq key "provider"
      then some src.provider
      else if str_eq key "resource_type"
      then some src.resource_type
      else if str_eq key "framework"
      then some src.framework
      else if str_eq key "doc_type"
      then some src.doc_type
      else if str_eq key "chunk_index"
      then some (format_int i)
      else none

  -- The loop over the chunks, from index i.
  pub documents_from : Source → ℕ → List Bytes → List Document
  unfolding chunk_metadata
  documents_from src i [] = []
  documents_from src i (c ∷ chunks) =
      record {
        id = chunk_id src.url i;
        content = c;
        source = src.url;
        metadata = chunk_metadata src i;
      }
      ∷ documents_from src (suc i) chunks

  -- The chunks of a page. Ingestion.Chunk shows that the loop of chunk always ends.
  pub all_chunks : Option (List Bytes) → List Bytes
  all_chunks none = []
  all_chunks (some chunks) = chunks

  pub store_embedded : Source → List Bytes → Result (List Vector) → Result (List (Point Vector))
  unfolding documents_from
  store_embedded src chunks (err message) = err message
  store_embedded src chunks (ok vectors) =
      upsert takes client_error (documents_from src 0 chunks) vectors

  pub store_page : PipelineConfig → Source → Result Bytes → Result (List (Point Vector))
  unfolding store_embedded all_chunks
  store_page cfg src (err message) = err message
  store_page cfg src (ok content) =
      let chunks = all_chunks (chunk cfg content) in store_embedded src chunks (embed chunks)

  -- One round of the loop of Ingest: the points that the store takes.
  pub ingest_source : PipelineConfig → Source → Result (List (Point Vector))
  unfolding store_page
  ingest_source cfg src = store_page cfg src (fetch src.url)

  -- Ingest: what the store has taken, and the error that ended the loop.
  pub ingest :
      PipelineConfig
      → List Source
      → List (List (Point Vector))
      → List (List (Point Vector)) × Option Bytes
  ingest cfg [] stored = (stored, none)
  ingest cfg (src ∷ sources) stored = elim (ingest_source cfg src) [
    | ok points ↦ ingest cfg sources (stored ++ points ∷ [])
    | err message ↦ (stored, some message)
  ]
