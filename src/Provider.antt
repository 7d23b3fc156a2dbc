-- ===== src/Provider.antt =====
-- internal/provider: the settings of a language model backend, and what is constructed from them. The model and
-- the constructors of the eino packages, strconv.Atoi and strconv.ParseFloat are parameters.
pub mod Settings
pub mod FromEnv
pub mod AzureCodex
