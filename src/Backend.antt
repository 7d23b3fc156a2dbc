-- ===== src/Backend.antt =====
-- The backends of internal/provider/interface.go, which the switches of packages provider and embedder
-- tell apart by their names.
use tfai_go.Base.{Bytes, codes, bytes_eq, if◌then◌else◌}

-- Backend
pub data Backend : Type 0 where
  ollama open_ai azure bedrock gemini : Backend
  unknown : Bytes → Backend

-- The case of a switch that a name takes.
unfoldable pub backend_of : Bytes → Backend
backend_of name =
    if bytes_eq name (codes "ollama")
    then ollama
    else if bytes_eq name (codes "openai")
    then open_ai
    else if bytes_eq name (codes "azure")
    then azure
    else if bytes_eq name (codes "bedrock")
    then bedrock
    else if bytes_eq name (codes "gemini")
    then gemini
    else unknown name
