-- ===== src/Rag.antt =====
-- internal/rag: the documents, the Qdrant store and the retriever. The Qdrant client and the
-- embedding service are parameters: what a call of theirs answers, and which payloads qdrant.NewValueMap takes: it
-- panics at a text that is not valid UTF-8, which ends the process and is an error here. A map is a function from the key.
pub mod RoundTrip
pub mod Collection
mod Tests
use tfai_go.Base.{
  ℕ, zero, suc, Bool, true, false, Option, none, some, List, [], ◌∷◌, map, Bytes, codes, bytes_eq,
  length, String, str_eq, Result, ok, err, ℤ, pos, negsuc, pos_part, is_nonpos, ◌||◌, not, ◌&&◌,
  ◌==◌, if◌then◌else◌,
}

abbrev pub Metadata : Type 0
Metadata = String → Option Bytes

-- Document, without the score, which the program only passes on
pub record Document : Type 0 where
  pub id : Bytes
  pub content : Bytes
  pub source : Bytes
  pub metadata : Metadata

abbrev pub or_else : Option Bytes → Option Bytes → Option Bytes
or_else none other = other
or_else (some v) other = some v

-- The payload that Upsert stores: content and source, and then every key of the metadata over them.
pub payload_of : Document → Metadata
payload_of doc key = or_else (doc.metadata key) (
    if str_eq key "content"
    then some doc.content
    else if str_eq key "source"
    then some doc.source
    else none)

abbrev pub or_empty : Option Bytes → Bytes
or_empty none = []
or_empty (some v) = v

-- qdrant.PointStruct
pub record Point (Vector : Type 0) : Type 0 where
  pub id : Bytes
  pub vector : Vector
  pub payload : Metadata

-- DefaultRetriever
pub record Retriever (Vector : Type 0) : Type 0 where
  pub embed : List Bytes → Result (List Vector)
  pub query : Vector → ℕ → Result (List (Point Vector))
  pub default_top_k : ℤ

-- NewValueMap takes the payload of each document.
pub all_taken : (Metadata → Bool) → List Document → Bool
unfolding payload_of
all_taken takes [] = true
all_taken takes (doc ∷ docs) = takes (payload_of doc) && all_taken takes docs

module _ {Vector : Type 0} where
  -- The loop of Upsert over the documents and their embeddings.
  pub points_of : List Document → List Vector → List (Point Vector)
  unfolding payload_of
  points_of [] vectors = []
  points_of (doc ∷ docs) [] = []
  points_of (doc ∷ docs) (v ∷ vectors) =
      record { id = doc.id; vector = v; payload = payload_of doc } ∷ points_of docs vectors

  pub client_answer : List (Point Vector) → Option Bytes → Result (List (Point Vector))
  client_answer points none = ok points
  client_answer points (some message) = err message

  -- Upsert: the points that the client is given, if it takes them
  pub upsert :
      (Metadata → Bool)
      → (List (Point Vector) → Option Bytes)
      → List Document
      → List Vector
      → Result (List (Point Vector))
  unfolding points_of client_answer all_taken
  upsert takes client_error docs vectors =
      if not (length vectors == length docs)
      then err (codes "embeddings length does not match docs length")
      else if not (all_taken takes docs)
      then err (codes "panic: invalid UTF-8 in string")
      else client_answer (points_of docs vectors) (client_error (points_of docs vectors))

  -- One result of Search as a document.
  pub document_of : Point Vector → Document
  document_of p = record {
    id = p.id;
    content = or_empty (p.payload "content");
    source = or_empty (p.payload "source");
    metadata = λ key. if str_eq key "content" || str_eq key "source" then none else p.payload key;
  }

  pub documents_of : Result (List (Point Vector)) → Result (List Document)
  unfolding document_of
  documents_of (err message) = err message
  documents_of (ok points) = ok (map document_of points)

  -- QdrantStore.Search
  pub search_store :
      (Vector → ℕ → Result (List (Point Vector))) → Vector → ℤ → Result (List Document)
  unfolding documents_of
  search_store query v top_k = documents_of (query v (pos_part top_k))

  -- NewRetriever, of an embedder and a store that are not nil
  pub new_retriever :
      (List Bytes → Result (List Vector))
      → (Vector → ℕ → Result (List (Point Vector)))
      → ℤ
      → Retriever Vector
  new_retriever embed query default_top_k = record {
    embed = embed;
    query = query;
    default_top_k = if is_nonpos default_top_k then pos 5 else default_top_k;
  }

  pub search_first : Retriever Vector → ℤ → Result (List Vector) → Result (List Document)
  unfolding search_store
  search_first r top_k (err message) = err message
  search_first r top_k (ok []) = err (codes "embedder returned empty result for query")
  search_first r top_k (ok (v ∷ vectors)) = search_store r.query v top_k

  -- Retrieve
  pub retrieve : Retriever Vector → Bytes → ℤ → Result (List Document)
  unfolding search_first
  retrieve r query top_k =
      search_first r (if is_nonpos top_k then r.default_top_k else top_k) (r.embed (query ∷ []))
