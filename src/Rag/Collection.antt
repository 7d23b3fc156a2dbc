-- ===== src/Rag/Collection.antt =====
-- NewQdrantStore and ensureCollection of internal/rag/qdrant.go: what the store is made of, and when its collection
-- is created. The answers of the Qdrant client are parameters.
use tfai_go.Base.{
  suc, zero, ◌≡◌, ◌⊎◌, refl, inl, inr, ℕ, Bool, true, false, Option, none, some, List, [], ◌∷◌,
  ◌++◌, Bytes, codes, bytes_eq, Result, ok, err, ℤ, pos, negsuc, if◌then◌else◌,
}

-- QdrantConfig
pub record QdrantConfig : Type 0 where
  pub host : Bytes
  pub port : ℤ
  pub collection : Bytes
  pub vector_size : ℕ
  pub api_key : Bytes
  pub use_tls : Bool

-- What the client answers: the error of its constructor, whether a collection exists, and the error of creating
-- one with vectors of a size.
pub record Client : Type 0 where
  pub client_error : QdrantConfig → Option Bytes
  pub collection_exists : Bytes → Result Bool
  pub create_error : Bytes → ℕ → Option Bytes

-- The defaults for the host and the port, where these have the zero value.
pub port_or_default : ℤ → ℤ
port_or_default (pos zero) = pos 6334
port_or_default (pos (suc n)) = pos (suc n)
port_or_default (negsuc n) = negsuc n

pub with_defaults : QdrantConfig → QdrantConfig
unfolding port_or_default
with_defaults cfg = record {
  host = if bytes_eq cfg.host [] then codes "localhost" else cfg.host;
  port = port_or_default cfg.port;
  collection = cfg.collection;
  vector_size = cfg.vector_size;
  api_key = cfg.api_key;
  use_tls = cfg.use_tls;
}

-- The collections that the client is asked to create, with the size of their vectors, and the error.
abbrev pub Outcome : Type 0
Outcome = List (Bytes × ℕ) × Option Bytes

pub creation_error : Bytes → Option Bytes → Option Bytes
creation_error collection none = none
creation_error collection (some message) =
    some (codes "qdrant: failed to create collection \"" ++ collection ++ codes "\": " ++ message)

pub after_exists : Client → QdrantConfig → Result Bool → Outcome
unfolding creation_error
after_exists client cfg (err message) =
    ([], some (codes "qdrant: failed to check collection existence: " ++ message))
after_exists client cfg (ok true) = ([], none)
after_exists client cfg (ok false) = (
  (cfg.collection, cfg.vector_size) ∷ [],
  creation_error cfg.collection (client.create_error cfg.collection cfg.vector_size),
)

-- ensureCollection
pub ensure_collection : Client → QdrantConfig → Outcome
unfolding after_exists
ensure_collection client cfg = after_exists client cfg (client.collection_exists cfg.collection)

pub after_client : Client → QdrantConfig → Option Bytes → Outcome
unfolding ensure_collection
after_client client cfg none = ensure_collection client cfg
after_client client cfg (some message) =
    ([], some (codes "qdrant: failed to create client: " ++ message))

-- NewQdrantStore, for the configuration with its defaults, which is the store's
pub new_qdrant_store : Client → QdrantConfig → Outcome
unfolding after_client with_defaults
new_qdrant_store client cfg =
    let resolved = with_defaults cfg in after_client client resolved (client.client_error resolved)

-- The error of NewQdrantStore, and whether it has opened a client: one whose collection cannot be ensured is not
-- closed.
pub store_error : Client → QdrantConfig → Option Bytes
unfolding new_qdrant_store
store_error client cfg = (new_qdrant_store client cfg).1

pub opens_client : Client → QdrantConfig → Bool
unfolding with_defaults
opens_client client cfg = elim (client.client_error (with_defaults cfg)) [
  | none ↦ true
  | some message ↦ false
]

-- The collection is there already, and none is created, or it is not, and it alone is created, for vectors of the
-- configured size.
abbrev pub IsEnsured : Client → QdrantConfig → List (Bytes × ℕ) → Type 0
IsEnsured client cfg asked =
    ((client.collection_exists cfg.collection ≡ ok true) × (asked ≡ []))
    ⊎ ((client.collection_exists cfg.collection ≡ ok false)
        × (client.create_error cfg.collection cfg.vector_size ≡ none)
        × (asked ≡ (cfg.collection, cfg.vector_size) ∷ []))

after_exists-ok :
    (client : Client) (cfg : QdrantConfig) (asked : List (Bytes × ℕ)) (r : Result Bool)
    (e : Option Bytes)
    → client.collection_exists cfg.collection ≡ r
    → client.create_error cfg.collection cfg.vector_size ≡ e
    → after_exists client cfg r ≡ (asked, none)
    → IsEnsured client cfg asked
unfolding after_exists creation_error
after_exists-ok client cfg asked (err m) e x c h = cc
after_exists-ok client cfg asked (ok true) e x c h = inl (x, cc)
after_exists-ok client cfg asked (ok false) none x c h = inr (x, c, cc)
after_exists-ok client cfg asked (ok false) (some m) x c h = cc (rw c at h)

-- A store that is made without an error has its collection: it was there, and no collection is created, or it was
-- not, and the client created it, and it alone, for vectors of the configured size.
pub new_qdrant_store-IsEnsured :
    (client : Client) (cfg : QdrantConfig) (asked : List (Bytes × ℕ))
    → new_qdrant_store client cfg ≡ (asked, none)
    → (client.client_error (with_defaults cfg) ≡ none) × IsEnsured client (with_defaults cfg) asked
unfolding new_qdrant_store
new_qdrant_store-IsEnsured client cfg asked h =
    from_client (client.client_error (with_defaults cfg)) refl h
  where
    from_client :
        (e : Option Bytes)
        → client.client_error (with_defaults cfg) ≡ e
        → after_client client (with_defaults cfg) e ≡ (asked, none)
        → (client.client_error (with_defaults cfg) ≡ none)
          × IsEnsured client (with_defaults cfg) asked
    from_client none c k = (
      c,
      after_exists-ok client (with_defaults cfg) asked
          (client.collection_exists (with_defaults cfg).collection)
          (client.create_error (with_defaults cfg).collection (with_defaults cfg).vector_size) refl
          refl k,
    )
    from_client (some m) c k = cc
