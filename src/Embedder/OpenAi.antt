-- ===== src/Embedder/OpenAi.antt =====
-- Embed of internal/embedder/openai.go: the request for a batch of texts, and the embeddings of the answer in
-- the order of the texts. Sending the request and decoding the answer is a parameter; an embedding that the
-- answer does not give is none, which is Go's nil.
pub mod Filled
pub mod Order
mod Tests
use tfai_go.Base.{
  ℕ, Bool, true, false, Option, none, some, List, [], ◌∷◌, ◌++◌, Bytes, codes, bytes_eq, length,
  replicate, set, Result, ok, err, ℤ, pos, pos_part, is_neg, is_nonpos, ltb, leb, not, ◌||◌, ◌==◌,
  if◌then◌else◌,
}
use tfai_go.Embedder.{OpenAiConfig}

-- openaiEmbedRequest, with the address and the header that carries the key; `dimensions` is left out if it
-- is not positive
pub record Request : Type 0 where
  pub url : Bytes
  pub header : Bytes
  pub key : Bytes
  pub input : List Bytes
  pub model : Bytes
  pub dimensions : Option ℤ

pub embed_request : OpenAiConfig → List Bytes → Request
embed_request e texts = record {
  url =
      if e.azure
      then e.base_url
        ++ codes "/deployments/"
        ++ e.model
        ++ codes "/embeddings?api-version="
        ++ e.api_version
      else e.base_url ++ codes "/embeddings";
  header = if e.azure then codes "api-key" else codes "Authorization";
  key = if e.azure then e.api_key else codes "Bearer " ++ e.api_key;
  input = texts;
  model = e.model;
  dimensions = if is_nonpos e.dimensions then none else some e.dimensions;
}

-- openaiEmbedResponse, with the status
pub record Datum (Vector : Type 0) : Type 0 where
  pub embedding : Vector
  pub index : ℤ

pub record EmbedResponse (Vector : Type 0) : Type 0 where
  pub status : ℕ
  pub data_items : List (Datum Vector)

module _ {Vector : Type 0} where
  -- The loop that sorts by index, of the count of the texts.
  pub place : ℕ → List (Datum Vector) → List (Option Vector) → Result (List (Option Vector))
  place n [] embeddings = ok embeddings
  place n (d ∷ ds) embeddings =
      let rest = place n ds (set embeddings (pos_part d.index) (some d.embedding)) in
      if is_neg d.index || leb n (pos_part d.index)
      then err (codes "openai embedder: index out of range")
      else rest

  pub embeddings_of : ℕ → Result (EmbedResponse Vector) → Result (List (Option Vector))
  unfolding place
  embeddings_of n (err message) = err message
  embeddings_of n (ok response) =
      if ltb response.status 200 || leb 300 response.status
      then err (codes "openai embedder: HTTP")
      else if not (length response.data_items == n)
      then err (codes "openai embedder: expected another count of embeddings")
      else place n response.data_items (replicate n none)

  -- Embed
  pub embed :
      (Request → Result (EmbedResponse Vector))
      → OpenAiConfig
      → List Bytes
      → Result (List (Option Vector))
  unfolding embeddings_of embed_request
  embed send e texts = embeddings_of (length texts) (send (embed_request e texts))
