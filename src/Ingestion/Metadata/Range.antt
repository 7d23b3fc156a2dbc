-- ===== src/Ingestion/Metadata/Range.antt =====
-- The values that InferMetadata can give.
use tfai_go.Base.{
  Bool, true, false, Option, none, some, List, [], ◌∷◌, Bytes, codes, if◌then◌else◌, to_lower,
}
use tfai_go.Ingestion.Metadata.{
  InferredMetadata, registry_doc_type, infer_registry, infer_atmos, infer_hashicorp, infer_parsed,
  infer_url, infer_metadata,
}

-- The kinds of documentation that the settings of a source know.
pub data IsDocType : Bytes → Type 0 where
  reference : IsDocType (codes "reference")
  tutorial : IsDocType (codes "tutorial")
  guide : IsDocType (codes "guide")
  api : IsDocType (codes "api")

choose : (b : Bool) (x y : Bytes) → IsDocType x → IsDocType y → IsDocType (if b then x else y)
choose true x y hx hy = hx
choose false x y hx hy = hy

-- The doc type of a choice is the choice of the doc types.
doc_type-if :
    (b : Bool) (m n : InferredMetadata)
    → IsDocType m.doc_type
    → IsDocType n.doc_type
    → IsDocType (if b then m else n).doc_type
doc_type-if true m n hm hn = hm
doc_type-if false m n hm hn = hn

registry_doc_type-IsDocType :
    (segments : List Bytes) (otherwise : Bytes)
    → IsDocType otherwise
    → IsDocType (registry_doc_type segments otherwise)
unfolding registry_doc_type
registry_doc_type-IsDocType [] otherwise h = h
registry_doc_type-IsDocType (seg ∷ segments) otherwise h =
    choose _ _ _ guide (choose _ _ _ reference (registry_doc_type-IsDocType segments otherwise h))

infer_atmos-IsDocType :
    (segments : List Bytes) (m : InferredMetadata)
    → IsDocType m.doc_type
    → IsDocType (infer_atmos segments m).doc_type
unfolding infer_atmos
infer_atmos-IsDocType [] m h = h
infer_atmos-IsDocType (first ∷ more) m h = search (doc_type-if, h, tutorial, reference, guide)

infer_hashicorp-IsDocType :
    (segments : List Bytes) (m : InferredMetadata)
    → IsDocType m.doc_type
    → IsDocType (infer_hashicorp segments m).doc_type
unfolding infer_hashicorp
infer_hashicorp-IsDocType [] m h = h
infer_hashicorp-IsDocType (first ∷ []) m h = h
infer_hashicorp-IsDocType (first ∷ second ∷ more) m h =
    search (doc_type-if, h, tutorial, reference, api)

infer_registry-IsDocType :
    (segments : List Bytes) (m : InferredMetadata)
    → IsDocType m.doc_type
    → IsDocType (infer_registry segments m).doc_type
unfolding infer_registry
infer_registry-IsDocType [] m h = h
infer_registry-IsDocType (first ∷ []) m h = h
infer_registry-IsDocType (first ∷ org ∷ []) m h = h
infer_registry-IsDocType (first ∷ org ∷ name ∷ more) m h =
    search (doc_type-if, h, registry_doc_type-IsDocType (first ∷ org ∷ name ∷ more) m.doc_type h)

infer_parsed-IsDocType : (host path : Bytes) → IsDocType (infer_parsed host path).doc_type
unfolding infer_parsed
infer_parsed-IsDocType host path = search (
  doc_type-if, reference, infer_registry-IsDocType, infer_atmos-IsDocType,
  infer_hashicorp-IsDocType,
)

infer_url-IsDocType : (u : Option (Bytes × Bytes)) → IsDocType (infer_url u).doc_type
unfolding infer_url
infer_url-IsDocType none = reference
infer_url-IsDocType (some (host, path)) = infer_parsed-IsDocType (to_lower host) (to_lower path)

-- For every source URL, whether it parses or not and whatever its host and path hold, InferMetadata gives one
-- of the doc types reference, tutorial, guide and api.
pub infer_metadata-IsDocType :
    (parse_url : Bytes → Option (Bytes × Bytes)) (raw : Bytes)
    → IsDocType (infer_metadata parse_url raw).doc_type
unfolding infer_metadata
infer_metadata-IsDocType parse_url raw = infer_url-IsDocType (parse_url raw)
