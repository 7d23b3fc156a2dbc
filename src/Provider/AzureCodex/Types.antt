-- ===== src/Provider/AzureCodex/Types.antt =====
-- The records of internal/provider/azure_codex.go, and those of eino's schema and of HTTP that it reads.
use tfai_go.Base.{ℕ, Option, List, Bytes, Result, ℤ}

-- schema.ToolCall, whose type is "function"
pub record ToolCall : Type 0 where
  pub id : Bytes
  pub name : Bytes
  pub arguments : Bytes

-- schema.Message
pub record Message : Type 0 where
  pub role : Bytes
  pub content : Bytes
  pub tool_calls : List ToolCall
  pub tool_call_id : Bytes

-- schema.ToolInfo
pub record ToolInfo : Type 0 where
  pub name : Bytes
  pub desc : Bytes
  pub json_schema : Option Bytes

-- codexMessage
pub record CodexMessage : Type 0 where
  pub role : Bytes
  pub content : Bytes
  pub tool_calls : List ToolCall
  pub tool_call_id : Bytes

-- codexTool
pub record CodexTool : Type 0 where
  pub name : Bytes
  pub description : Bytes
  pub parameters : Option Bytes

-- codexRequest
pub record CodexRequest : Type 0 where
  pub model : Bytes
  pub input : List CodexMessage
  pub max_completion_tokens : ℤ
  pub tools : List CodexTool
  pub tool_choice : Option Bytes

-- codexContentBlock
pub record CodexContentBlock : Type 0 where
  pub type : Bytes
  pub text : Bytes
  pub id : Bytes
  pub name : Bytes
  pub arguments : Bytes

-- codexOutputItem
pub record CodexOutputItem : Type 0 where
  pub type : Bytes
  pub role : Bytes
  pub content : List CodexContentBlock

-- codexUsage
pub record CodexUsage : Type 0 where
  pub input_tokens : ℕ
  pub output_tokens : ℕ
  pub total_tokens : ℕ

-- codexError
pub record CodexError : Type 0 where
  pub message : Bytes
  pub type : Bytes
  pub code : Bytes

-- codexResponse
pub record CodexResponse : Type 0 where
  pub status : Bytes
  pub output : List CodexOutputItem
  pub usage : CodexUsage
  pub error : Option CodexError

-- azureCodexClient
pub record Client : Type 0 where
  pub endpoint : Bytes
  pub api_key : Bytes
  pub api_version : Bytes
  pub model_name : Bytes
  pub max_completion_toks : ℤ
  pub bound_tools : List ToolInfo

-- The options of a call that the client reads.
pub record Options : Type 0 where
  pub tools : List ToolInfo
  pub tool_choice : Option Bytes

-- What Generate returns: the message with its metadata.
pub record Generated : Type 0 where
  pub message : Message
  pub finish_reason : Bytes
  pub usage : CodexUsage

-- An HTTP request, a POST with a JSON body.
pub record HttpRequest : Type 0 where
  pub url : Bytes
  pub authorization : Bytes
  pub body : Bytes

-- json.Marshal, http.Client.Do with io.ReadAll, and json.Unmarshal. A response is its status and what
-- reading its body gives.
pub record Services : Type 0 where
  pub marshal : CodexRequest → Result Bytes
  pub post : HttpRequest → Result (ℕ × Result Bytes)
  pub unmarshal : Bytes → Result CodexResponse
