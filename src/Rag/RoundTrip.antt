-- ===== src/Rag/RoundTrip.antt =====
-- What Upsert stores, Search gives back.
use tfai_go.Base.{
  ◌≡◌, refl, Option, none, some, List, [], ◌∷◌, map, Bytes, length, String, str_eq, eq_iff, ok, err,
  Bool, true, false, not, codes, All, Bool-cases, inl, inr, arith, if◌then◌else◌, ◌||◌,
}
use tfai_go.Base.{sym, ◌==◌}
use tfai_go.Rag.{
  all_taken, Metadata, or_else, or_empty, client_answer, Document, payload_of, Point, points_of,
  upsert, document_of, documents_of,
}

-- The metadata has no key that the payload uses for something else.
pub record IsPlain (doc : Document) : Type 0 where
  pub no_content : doc.metadata "content" ≡ none
  pub no_source : doc.metadata "source" ≡ none

content-payload_of :
    (doc : Document) → IsPlain doc → or_empty (payload_of doc "content") ≡ doc.content
unfolding payload_of
content-payload_of doc plain = rw plain.no_content refl

source-payload_of : (doc : Document) → IsPlain doc → or_empty (payload_of doc "source") ≡ doc.source
unfolding payload_of
source-payload_of doc plain = rw plain.no_source refl

metadata-payload_of :
    (doc : Document) (key : String)
    → IsPlain doc
    → (if str_eq key "content" || str_eq key "source" then none else payload_of doc key)
      ≡ doc.metadata key
unfolding payload_of
metadata-payload_of doc key plain = elim (Bool-cases (str_eq key "content")) [
  | inl e ↦ rw (e, (eq_iff key "content").0 e) (sym plain.no_content)
  | inr e ↦ elim (Bool-cases (str_eq key "source")) [
    | inl f ↦ rw (e, f, (eq_iff key "source").0 f) (sym plain.no_source)
    | inr f ↦ rw (e, f) (neither (doc.metadata key))
  ]
]
  where
    neither : (o : Option Bytes) → or_else o none ≡ o
    neither none = refl
    neither (some v) = refl

document_of-payload_of :
    {Vector : Type 0} (doc : Document) (v : Vector)
    → IsPlain doc
    → document_of (record { id = doc.id; vector = v; payload = payload_of doc }) ≡ doc
unfolding document_of
document_of-payload_of doc v plain = λ i. record {
  id = doc.id;
  content = content-payload_of doc plain i;
  source = source-payload_of doc plain i;
  metadata = λ key. metadata-payload_of doc key plain i;
}

documents_of-points_of :
    {Vector : Type 0} (docs : List Document) (vectors : List Vector)
    → length vectors ≡ length docs
    → All IsPlain docs
    → map document_of (points_of docs vectors) ≡ docs
unfolding points_of
documents_of-points_of [] vectors same plain = refl
documents_of-points_of (doc ∷ docs) [] same plain = absurd (omega arith)
documents_of-points_of (doc ∷ docs) (v ∷ vectors) same (p, plain) =
    cc (document_of-payload_of doc v p, documents_of-points_of docs vectors (omega arith) plain)

-- Upsert takes documents only with one vector for each. What it then stores reads back, by Search's
-- conversion of each point, as the documents themselves, in their order, if no metadata has a key
-- "content" or "source".
pub documents_of-upsert :
    {Vector : Type 0} (takes : Metadata → Bool) (client_error : List (Point Vector) → Option Bytes)
    (docs : List Document) (vectors : List Vector) (points : List (Point Vector))
    → All IsPlain docs
    → upsert takes client_error docs vectors ≡ ok points
    → (length vectors ≡ length docs) × (documents_of (ok points) ≡ ok docs)
unfolding upsert documents_of
documents_of-upsert takes client_error docs vectors points plain h =
    elim (Bool-cases (length vectors == length docs)) [
      | inl e ↦
          let same : length vectors ≡ length docs = ground arith in
          let stored : points ≡ points_of docs vectors =
            by_taken (all_taken takes docs) (rw e at h) in
          (same, rw stored (rw (documents_of-points_of docs vectors same plain)))
      | inr e ↦ cc (rw e at h)
    ]
  where
    taken :
        (o : Option Bytes)
        → client_answer (points_of docs vectors) o ≡ ok points
        → points ≡ points_of docs vectors
    taken none k = unfold client_answer in cc
    taken (some message) k = unfold client_answer in cc

    by_taken :
        (b : Bool)
        → (if not b
            then err (codes "panic: invalid UTF-8 in string")
            else client_answer (points_of docs vectors) (client_error (points_of docs vectors)))
          ≡ ok points
        → points ≡ points_of docs vectors
    by_taken true k = taken (client_error (points_of docs vectors)) k
    by_taken false k = cc
