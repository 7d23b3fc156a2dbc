-- ===== src/Provider/AzureCodex.antt =====
-- internal/provider/azure_codex.go: the client of the /openai/responses endpoint.
-- Messages and tools are those of eino's package schema, as far as the client reads them: a tool has the
-- JSON schema that ToJSONSchema gives for its parameters, if it gives one. The HTTP client and the JSON
-- coder are parameters.
mod Types
pub mod Requests
pub mod Replies
mod Tests
pub use Types.*
use tfai_go.Base.{
  ℕ, Bool, true, false, Option, none, some, List, [], ◌∷◌, ◌++◌, map, Bytes, codes, bytes_eq, ltb,
  Result, ok, err, ℤ, not, ◌||◌, if◌then◌else◌,
}
use tfai_go.Provider.Settings.{Config, Codex}

-- The loop of Generate over the messages.
pub codex_message : Message → CodexMessage
codex_message msg = record {
  role = msg.role;
  content = msg.content;
  tool_calls = msg.tool_calls;
  tool_call_id = if bytes_eq msg.role (codes "tool") then msg.tool_call_id else [];
}

pub codex_tool : ToolInfo → CodexTool
codex_tool t = record { name = t.name; description = t.desc; parameters = t.json_schema }

-- convertTools
pub convert_tools : List ToolInfo → List CodexTool
unfolding codex_tool
convert_tools [] = []
convert_tools (t ∷ tools) =
    let rest = convert_tools tools in if bytes_eq t.name [] then rest else codex_tool t ∷ rest

-- The converted tools, unless none is left.
pub apply_tools : List CodexTool → List CodexTool → List CodexTool
apply_tools before [] = before
apply_tools before (t ∷ converted) = t ∷ converted

-- The request that Generate makes.
pub request_of : Client → List Message → Options → CodexRequest
unfolding apply_tools convert_tools codex_message
request_of c messages options = record {
  model = c.model_name;
  input = map codex_message messages;
  max_completion_tokens = c.max_completion_toks;
  tools = apply_tools (apply_tools [] (convert_tools c.bound_tools)) (convert_tools options.tools);
  tool_choice = options.tool_choice;
}

pub http_request : Client → Bytes → HttpRequest
http_request c body = record {
  url = c.endpoint ++ codes "/openai/responses?api-version=" ++ c.api_version;
  authorization = codes "Bearer " ++ c.api_key;
  body = body;
}

pub parse_response : Services → Result (ℕ × Result Bytes) → Result CodexResponse
parse_response s (err e) = err e
parse_response s (ok (status, err e)) = err e
parse_response s (ok (status, ok body)) =
    if ltb status 200 || not (ltb status 300) then err body else s.unmarshal body

-- doRequest
pub do_request : Services → Client → CodexRequest → Result CodexResponse
unfolding parse_response http_request
do_request s c req = elim (s.marshal req) [
  | err e ↦ err e
  | ok body ↦ parse_response s (s.post (http_request c body))
]

pub find_message : List CodexOutputItem → Option CodexOutputItem
find_message [] = none
find_message (item ∷ items) =
    let rest = find_message items in
    if bytes_eq item.type (codes "message") then some item else rest

-- The text of the blocks, and their tool calls.
pub text_of : List CodexContentBlock → Bytes
text_of [] = []
text_of (b ∷ blocks) =
    let rest = text_of blocks in
    if bytes_eq b.type (codes "output_text") then b.text ++ rest else rest

pub is_call : CodexContentBlock → Bool
is_call b = bytes_eq b.type (codes "tool_use") || bytes_eq b.type (codes "function_call")

pub calls_of : List CodexContentBlock → List ToolCall
unfolding is_call
calls_of [] = []
calls_of (b ∷ blocks) =
    let rest = calls_of blocks in
    if is_call b then record { id = b.id; name = b.name; arguments = b.arguments } ∷ rest else rest

pub message_of : CodexOutputItem → Message
unfolding text_of calls_of
message_of item = record {
  role = item.role;
  content = text_of item.content;
  tool_calls = calls_of item.content;
  tool_call_id = [];
}

pub generated_of : CodexResponse → Option CodexOutputItem → Result Generated
unfolding message_of
generated_of resp none = err (codes "codex API returned no message output")
generated_of resp (some item) =
    ok (record { message = message_of item; finish_reason = resp.status; usage = resp.usage })

pub read_response : Result CodexResponse → Result Generated
unfolding generated_of find_message
read_response (err e) = err e
read_response (ok resp) = elim resp.error [
  | some e ↦ err (codes "codex API error: " ++ e.message)
  | none ↦ generated_of resp (find_message resp.output)
]

-- Generate
pub generate : Services → Client → List Message → Options → Result Generated
unfolding request_of do_request read_response
generate s c messages options = read_response (do_request s c (request_of c messages options))

-- Stream: what a reader of it receives
pub stream : Services → Client → List Message → Options → Result (List Generated)
unfolding generate
stream s c messages options = elim (generate s c messages options) [
  | err e ↦ err e
  | ok g ↦ ok (g ∷ [])
]

-- newAzureCodex, of the configuration and of its Codex section
pub new_azure_codex : {Float : Type 0} → Config Float → Codex → Client
new_azure_codex cfg codex = record {
  endpoint = cfg.azure_open_ai.endpoint;
  api_key = cfg.azure_open_ai.api_key;
  api_version =
      if bytes_eq cfg.azure_open_ai.api_version []
      then codes "2025-04-01-preview"
      else cfg.azure_open_ai.api_version;
  model_name = if bytes_eq codex.model [] then codes "gpt-5.2-codex" else codex.model;
  max_completion_toks = cfg.tuning.max_tokens;
  bound_tools = [];
}

-- WithTools: a copy; BindTools sets the field in place
pub with_tools : Client → List ToolInfo → Client
with_tools c tools = record c { bound_tools = tools }
