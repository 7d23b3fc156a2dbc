-- ===== src/Ingestion.antt =====
-- internal/ingestion/pipeline.go: the pipeline that fetches, chunks, embeds and stores a page.
pub mod Chunk
pub mod Pipeline
pub mod Fetch
pub mod ChunkId
pub mod Metadata
mod Tests
use tfai_go.Base.{
  ℕ, zero, suc, ◌+◌, ◌-◌, ◌/◌, Bool, Option, none, some, List, [], ◌∷◌, Bytes, codes, bytes_eq,
  length, take, drop, ltb, leb, trim_space, ℤ, pos, pos_part, is_nonpos, is_neg, ◌==◌,
  if◌then◌else◌,
}

-- Config: `http_timeout` is in seconds
pub record PipelineConfig : Type 0 where
  pub chunk_size : ℤ
  pub chunk_overlap : ℤ
  pub http_timeout : ℤ
  pub user_agent : Bytes

abbrev pub no_config : PipelineConfig
no_config = record {
  chunk_size = pos 0;
  chunk_overlap = pos 0;
  http_timeout = pos 0;
  user_agent = [];
}

abbrev pub default_user_agent : Bytes
default_user_agent = codes "tfai-go/1.0 (terraform documentation ingestion)"

-- The checks of NewPipeline on the chunk size, and on the overlap once the size is known.
pub resolve_size : ℤ → ℕ
resolve_size size = if is_nonpos size then 1000 else pos_part size

pub resolve_overlap : ℕ → ℤ → ℕ
resolve_overlap size overlap =
    let floored = if is_neg overlap then 0 else pos_part overlap in
    if leb size floored then size / 10 else floored

pub resolve_config : PipelineConfig → PipelineConfig
unfolding resolve_size resolve_overlap
resolve_config cfg = record {
  chunk_size = pos (resolve_size cfg.chunk_size);
  chunk_overlap = pos (resolve_overlap (resolve_size cfg.chunk_size) cfg.chunk_overlap);
  http_timeout = if is_nonpos cfg.http_timeout then pos 30 else cfg.http_timeout;
  user_agent = if bytes_eq cfg.user_agent [] then default_user_agent else cfg.user_agent;
}

-- NewPipeline, the configuration of the pipeline it makes: none for an embedder or a store that is
-- nil, and a configuration that is nil counts as the zero one.
unfoldable pub new_pipeline : Bool → Bool → Option PipelineConfig → Option PipelineConfig
unfolding resolve_config
new_pipeline has_embedder has_store none =
    if has_embedder then (if has_store then some (resolve_config no_config) else none) else none
new_pipeline has_embedder has_store (some cfg) =
    if has_embedder then (if has_store then some (resolve_config cfg) else none) else none

-- text[start:end]
abbrev pub slice : Bytes → ℕ → ℕ → Bytes
slice text start end = take (end - start) (drop start text)

-- The end of a chunk: start + size, or the end of the text.
abbrev pub chunk_end : ℕ → Bytes → ℕ → ℕ
chunk_end size text start = if ltb (length text) (start + size) then length text else start + size

pub prepend : Bytes → Option (List Bytes) → Option (List Bytes)
prepend c none = none
prepend c (some cs) = some (c ∷ cs)

-- The loop of chunk: none means that the fuel ran out.
pub chunk_from : ℕ → ℕ → ℕ → Bytes → ℕ → Option (List Bytes)
unfolding prepend
chunk_from zero size overlap text start = none
chunk_from (suc fuel) size overlap text start =
    let rest = chunk_from fuel size overlap text (start + (size - overlap)) in
    let end = chunk_end size text start in
    if ltb start (length text)
    then (if end == length text
        then some (slice text start end ∷ [])
        else prepend (slice text start end) rest)
    else some []

-- chunk. One round for each byte of the text is enough.
pub chunk : PipelineConfig → Bytes → Option (List Bytes)
unfolding chunk_from
chunk cfg text =
    let trimmed = trim_space text in
    chunk_from (suc (length trimmed)) (pos_part cfg.chunk_size) (pos_part cfg.chunk_overlap) trimmed
      0
