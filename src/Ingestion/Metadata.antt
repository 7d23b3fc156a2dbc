-- ===== src/Ingestion/Metadata.antt =====
-- internal/ingestion/metadata.go: the metadata that a URL suggests. url.Parse is a parameter: it
-- gives the host and the path of a URL, or none if it does not parse.
mod Table
pub mod Range
use tfai_go.Base.{
  String, ℕ, Bool, true, false, Option, none, some, List, [], ◌∷◌, Bytes, codes, bytes_eq,
  has_suffix, contains, to_lower, split, length, ltb, ◌||◌, not, if◌then◌else◌,
}
use Table.{provider_alias}

-- InferredMetadata
pub record InferredMetadata : Type 0 where
  pub framework : Bytes
  pub provider : Bytes
  pub doc_type : Bytes

abbrev pub defaults : InferredMetadata
defaults = record {
  framework = codes "terraform";
  provider = codes "generic";
  doc_type = codes "reference";
}

-- trimSegments
pub drop_empty : List Bytes → List Bytes
drop_empty [] = []
drop_empty (p ∷ ps) = if bytes_eq p [] then drop_empty ps else p ∷ drop_empty ps

pub trim_segments : Bytes → List Bytes
unfolding drop_empty
trim_segments path = drop_empty (split path b'/')

abbrev is : Bytes → String → Bool
is s word = bytes_eq s (codes word)

-- The doc type of the first segment that tells one.
pub registry_doc_type : List Bytes → Bytes → Bytes
registry_doc_type [] otherwise = otherwise
registry_doc_type (seg ∷ segments) otherwise =
    let rest = registry_doc_type segments otherwise in
    if is seg "guides"
    then codes "guide"
    else if is seg "resources" || is seg "data-sources"
    then codes "reference"
    else rest

pub alias_or_name : Bytes → Option Bytes → Bytes
alias_or_name name none = name
alias_or_name name (some alias) = alias

-- inferRegistryTerraform
pub infer_registry : List Bytes → InferredMetadata → InferredMetadata
unfolding registry_doc_type alias_or_name
infer_registry (first ∷ org ∷ name ∷ more) m = if not (is first "providers") then m else record m {
  provider = alias_or_name name (provider_alias name);
  doc_type = registry_doc_type (first ∷ org ∷ name ∷ more) m.doc_type;
}
infer_registry segments m = m

-- inferAtmos
pub infer_atmos : List Bytes → InferredMetadata → InferredMetadata
infer_atmos [] m = m
infer_atmos (first ∷ more) m =
    if is first "quick-start" || is first "getting-started"
    then record m { doc_type = codes "tutorial" }
    else if is first "core-concepts" || is first "cli" || is first "design-patterns"
    then record m { doc_type = codes "reference" }
    else if is first "integrations"
    then record m { doc_type = codes "guide" }
    else if is first "cheatsheets"
    then record m { doc_type = codes "reference" }
    else m

-- inferHashiCorpDeveloper
pub infer_hashicorp : List Bytes → InferredMetadata → InferredMetadata
infer_hashicorp (first ∷ second ∷ more) m =
    if not (is first "terraform")
    then m
    else if is second "tutorials"
    then record m { doc_type = codes "tutorial" }
    else if is second "language" || is second "cli" || is second "internals"
    then record m { doc_type = codes "reference" }
    else if is second "plugin"
    then record m { doc_type = codes "api" }
    else m
infer_hashicorp segments m = m

pub infer_parsed : Bytes → Bytes → InferredMetadata
unfolding infer_registry infer_atmos infer_hashicorp trim_segments
infer_parsed host path =
    if is host "registry.terraform.io"
    then infer_registry (trim_segments path) defaults
    else if is host "atmos.tools"
    then infer_atmos (trim_segments path)
        (record defaults { framework = codes "atmos"; provider = codes "atmos" })
    else if is host "developer.hashicorp.com"
    then infer_hashicorp (trim_segments path) defaults
    else if is host "terragrunt.gruntwork.io"
    then record defaults { framework = codes "terragrunt"; doc_type = codes "reference" }
    else if has_suffix host (codes "cdktf.io") || contains path (codes "cdktf")
    then record defaults { framework = codes "cdktf"; doc_type = codes "reference" }
    else defaults

pub infer_url : Option (Bytes × Bytes) → InferredMetadata
unfolding infer_parsed
infer_url none = defaults
infer_url (some (host, path)) = infer_parsed (to_lower host) (to_lower path)

-- InferMetadata
pub infer_metadata : (Bytes → Option (Bytes × Bytes)) → Bytes → InferredMetadata
unfolding infer_url
infer_metadata parse_url raw = infer_url (parse_url raw)
