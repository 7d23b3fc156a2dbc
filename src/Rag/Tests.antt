-- ===== src/Rag/Tests.antt =====
-- A run of the vector store at a concrete input.
use tfai_go.Base.{◌≡◌, refl, ℕ, true, none, [], ◌∷◌, codes, length, ok}
use tfai_go.Rag.{Document, payload_of, upsert, points_of, client_answer, all_taken, documents_of}
use tfai_go.Rag.RoundTrip.{documents_of-upsert}

abbrev doc : Document
doc = record { id = codes "1"; content = codes "c"; source = codes "s"; metadata = λ key. none }

abbrev vector : ℕ
vector = 7

documents_of-upsert_example :
    (length (vector ∷ []) ≡ length (doc ∷ []))
    × (documents_of (ok (record { id = codes "1"; vector = vector; payload = payload_of doc } ∷ []))
        ≡ ok (doc ∷ []))
unfolding upsert points_of client_answer all_taken
documents_of-upsert_example =
    documents_of-upsert (λ payload. true) (λ points. none) (doc ∷ []) (vector ∷ [])
      (record { id = codes "1"; vector = vector; payload = payload_of doc } ∷ [])
      (record { no_content = refl; no_source = refl }, tt) refl
