-- ===== src/Ingestion/Tests.antt =====
-- Runs of the ingestion at concrete inputs.
use tfai_go.Ingestion.ChunkId.{chunk_id}
use tfai_go.Ingestion.ChunkId.Form.{IsUuid, chunk_id-IsUuid}
use tfai_go.Base.{replicate, refl}
use tfai_go.Ingestion.Fetch.{strip_html}
use tfai_go.Ingestion.Fetch.Strip.{IsStripped, strip_html-IsStripped}
use tfai_go.Base.{
  true, ◌≡◌, ◌≤◌, ℕ, none, some, List, [], ◌∷◌, Bytes, codes, length, trim_space, ok, err, pos,
  pos_part, All,
}
use tfai_go.Ingestion.{PipelineConfig, resolve_config, chunk}
use tfai_go.Ingestion.Chunk.{reassemble, chunk-reassemble}
use tfai_go.Ingestion.Pipeline.{Source, Services, ingest}
use tfai_go.Ingestion.Pipeline.Sequence.{Progress, ingest-Progress}

abbrev cfg : PipelineConfig
cfg = record {
  chunk_size = pos 4;
  chunk_overlap = pos 1;
  http_timeout = pos 30;
  user_agent = codes "a";
}

abbrev text : Bytes
text = codes " variable "

chunk-reassemble_example :
    (cs : List Bytes) × (chunk (resolve_config cfg) text ≡ some cs)
    × (reassemble (pos_part (resolve_config cfg).chunk_overlap) cs ≡ trim_space text)
    × All (λ c. length c ≤ pos_part (resolve_config cfg).chunk_size) cs
    × (trim_space text ≡ [] → cs ≡ [])
chunk-reassemble_example = chunk-reassemble cfg text

abbrev source : Bytes → Source
source url = record {
  url = url;
  provider = codes "aws";
  resource_type = [];
  framework = [];
  doc_type = [];
}

abbrev services : Services ℕ
services = record {
  fetch = λ url. ok (codes "page");
  embed = λ chunks. err (codes "down");
  takes = λ payload. true;
  client_error = λ points. none;
  chunk_id = λ url i. url;
  format_int = λ i. [];
}

ingest-Progress_example :
    Progress services cfg
      (source (codes "u") ∷ [])
      []
      (ingest services cfg (source (codes "u") ∷ []) [])
ingest-Progress_example = ingest-Progress services cfg (source (codes "u") ∷ []) []

abbrev page : Bytes
page = codes "<p class=x>a  <> b</p>"

strip_html-IsStripped_example : IsStripped (strip_html page)
strip_html-IsStripped_example = strip_html-IsStripped page

-- A hash with one digest.
abbrev constant_hash : Bytes → Bytes
constant_hash s = replicate 32 171

chunk_id-IsUuid_example : IsUuid (chunk_id constant_hash page 3)
chunk_id-IsUuid_example = chunk_id-IsUuid constant_hash page 3 (λ s. refl)
