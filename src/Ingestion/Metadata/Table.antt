-- ===== src/Ingestion/Metadata/Table.antt =====
-- The map registryProviderAliases of internal/ingestion/metadata.go.
use tfai_go.Base.{Option, none, some, List, [], ◌∷◌, Bytes, codes, bytes_eq, if◌then◌else◌}

abbrev pub registry_provider_aliases : List (Bytes × Bytes)
registry_provider_aliases =
    (codes "aws", codes "aws")
    ∷ (codes "azurerm", codes "azure")
    ∷ (codes "azuread", codes "azure")
    ∷ (codes "google", codes "gcp")
    ∷ (codes "google-beta", codes "gcp")
    ∷ (codes "kubernetes", codes "kubernetes")
    ∷ (codes "helm", codes "kubernetes")
    ∷ (codes "random", codes "generic")
    ∷ (codes "null", codes "generic")
    ∷ (codes "local", codes "generic")
    ∷ (codes "tls", codes "generic")
    ∷ (codes "archive", codes "generic")
    ∷ (codes "template", codes "generic")
    ∷ (codes "http", codes "generic")
    ∷ []

pub find_alias : List (Bytes × Bytes) → Bytes → Option Bytes
find_alias [] name = none
find_alias ((key, alias) ∷ rows) name =
    if bytes_eq key name then some alias else find_alias rows name

-- registryProviderAliases[name]
unfoldable pub provider_alias : Bytes → Option Bytes
unfolding find_alias
provider_alias = find_alias registry_provider_aliases
