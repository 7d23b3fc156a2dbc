-- ===== src/Provider/AzureCodex/Tests.antt =====
-- Runs of the Codex client at concrete inputs.
use tfai_go.Base.{List, [], ◌∷◌, Bytes, codes, none, ok, pos}
use tfai_go.Provider.AzureCodex.{
  Client, Message, ToolInfo, Options, Services, CodexResponse, CodexContentBlock, Generated,
}

abbrev tool : Bytes → ToolInfo
tool name = record { name = name; desc = []; json_schema = none }

abbrev client : Client
client = record {
  endpoint = codes "https://e";
  api_key = codes "k";
  api_version = codes "v";
  model_name = codes "m";
  max_completion_toks = pos 8;
  bound_tools = tool (codes "plan") ∷ tool [] ∷ [];
}

abbrev messages : List Message
messages =
    record { role = codes "user"; content = codes "hi"; tool_calls = []; tool_call_id = [] } ∷ []

abbrev options : Options
options = record { tools = tool [] ∷ []; tool_choice = none }

abbrev block : Bytes → CodexContentBlock
block type = record {
  type = type;
  text = codes "t";
  id = codes "1";
  name = codes "plan";
  arguments = codes "{}";
}

abbrev response : CodexResponse
response = record {
  status = codes "completed";
  output =
      record { type = codes "reasoning"; role = []; content = [] }
      ∷ record {
        type = codes "message";
        role = codes "assistant";
        content = block (codes "output_text") ∷ block (codes "tool_use") ∷ [];
      }
      ∷ [];
  usage = record { input_tokens = 1; output_tokens = 2; total_tokens = 3 };
  error = none;
}

abbrev services : Services
services = record {
  marshal = λ req. ok (codes "{}");
  post = λ req. ok (200, ok (codes "{}"));
  unmarshal = λ body. ok response;
}

abbrev generated : Generated
generated = record {
  message = record {
    role = codes "assistant";
    content = codes "t";
    tool_calls = record { id = codes "1"; name = codes "plan"; arguments = codes "{}" } ∷ [];
    tool_call_id = [];
  };
  finish_reason = codes "completed";
  usage = response.usage;
}
