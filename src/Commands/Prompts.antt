-- ===== src/Commands/Prompts.antt =====
-- What the commands ask the agent (cmd/tfai/commands/ask.go, diagnose.go, generate.go), and the sources that
-- ingest.go makes of its flags. strconv.Quote, which %q calls, is a parameter.
use tfai_go.Base.{
  Bool, Option, none, some, List, [], ◌∷◌, ◌++◌, map, Bytes, codes, bytes_eq, Result, ok, err, not,
  if◌then◌else◌,
}
use tfai_go.Ingestion.Metadata.{InferredMetadata, infer_metadata}
use tfai_go.Ingestion.Pipeline.{Source}

-- A call of Query: the message and the workspace directory.
pub record Query : Type 0 where
  pub message : Bytes
  pub workspace_dir : Bytes

-- NewAskCmd, of the flag --dir
pub ask_query : Bytes → Bytes → Query
ask_query dir question = record {
  message =
      if not (bytes_eq dir [])
      then codes "[workspace: " ++ dir ++ codes "]\n\n" ++ question
      else question;
  workspace_dir = [];
}

-- What is piped in, where the standard input is no terminal.
pub piped : Result Bool → Result Bytes → Result Bytes
piped (err e) stdin = err (codes "diagnose: failed to stat stdin: " ++ e)
piped (ok is_piped) (err e) =
    if is_piped then err (codes "diagnose: failed to read stdin: " ++ e) else ok []
piped (ok is_piped) (ok text) = if is_piped then ok text else ok []

pub plan_file_content : Result Bytes → Result Bytes
plan_file_content (err e) = err (codes "diagnose: failed to read plan file: " ++ e)
plan_file_content (ok text) = ok text

-- The output to diagnose, of the flag --plan and the reading of that file.
pub plan_content : Bytes → (Bytes → Result Bytes) → Result Bool → Result Bytes → Result Bytes
unfolding piped plan_file_content
plan_content plan_file read stat stdin =
    if not (bytes_eq plan_file []) then plan_file_content (read plan_file) else piped stat stdin

-- The prompt of NewDiagnoseCmd, of the flag --dir
pub diagnose_query : (Bytes → Bytes) → Bytes → Bytes → Result Query
diagnose_query quote content dir =
    if not (bytes_eq content [])
    then ok (record {
      message =
          codes
            "Diagnose the following terraform output. Identify the root cause and provide step-by-step remediation:\n\n```\n"
          ++ content
          ++ codes "\n```";
      workspace_dir = [];
    })
    else if not (bytes_eq dir [])
    then ok (record {
      message =
          codes "Run terraform plan in directory "
          ++ quote dir
          ++ codes " and diagnose any issues found.";
      workspace_dir = [];
    })
    else err (
        codes
          "diagnose: provide --plan <file>, pipe plan output via stdin, or specify --dir <workspace>")

-- The prompt of NewGenerateCmd, of the absolute output directory, in which the agent writes
pub generate_query : (Bytes → Bytes) → Bytes → Bytes → Query
generate_query quote out_dir description = record {
  message =
      codes
        "Generate production-grade Terraform code for the following and write the files to directory "
      ++ quote out_dir
      ++ codes
          ".\n\nRequirements:\n- Every resource and module block must have a comment above it explaining its purpose\n- Every variable must have a description field and a sensible default where applicable\n- Every output must have a description field\n- Group related resources with section comment headers (e.g. # ── Networking ──)\n- Use blank lines between blocks for readability\n- Apply security best practices by default (encryption, least-privilege IAM, private endpoints)\n\nDescription: "
      ++ description;
  workspace_dir = out_dir;
}

-- The model of NewGenerateCmd
pub generate_model : {A : Type 0} → Option A → A → A
generate_model none chat = chat
generate_model (some model) chat = model

-- A flag, if it is given
unfoldable pub flag_or : Option Bytes → Bytes → Bytes
flag_or none inferred = inferred
flag_or (some value) inferred = value

-- The flags --provider, --framework and --doc-type of NewIngestCmd
pub record Labels : Type 0 where
  pub provider : Option Bytes
  pub framework : Option Bytes
  pub doc_type : Option Bytes

unfoldable pub source_of : (Bytes → InferredMetadata) → Labels → Bytes → Source
unfolding flag_or
source_of infer labels url =
    let inferred = infer url in
    record {
      url = url;
      provider = flag_or labels.provider inferred.provider;
      resource_type = [];
      framework = flag_or labels.framework inferred.framework;
      doc_type = flag_or labels.doc_type inferred.doc_type;
    }

-- The sources that NewIngestCmd hands to the pipeline, of the flag --url
unfoldable pub ingest_sources :
    (Bytes → Option (Bytes × Bytes)) → Labels → List Bytes → Result (List Source)
unfolding source_of
ingest_sources parse_url labels [] = err (codes "ingest: at least one --url is required")
ingest_sources parse_url labels (url ∷ urls) =
    ok (map (source_of (infer_metadata parse_url) labels) (url ∷ urls))
