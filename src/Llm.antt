-- ===== src/Llm.antt =====
-- llm/llm.go: what the engine exchanges with a model. Costs and durations are left out.
use mister_morph.Base.{ℕ, String, Bool, Option, List, []}
use mister_morph.Base.Json.{Params, Value}

pub record LlmToolCall : Type 0 where
  pub id : String
  pub name : String
  pub arguments : Params

pub record Message : Type 0 where
  pub role : String
  pub content : String
  pub tool_call_id : String
  pub tool_calls : List LlmToolCall

pub record LlmTool : Type 0 where
  pub name : String
  pub description : String
  pub parameters_json : String

pub record Usage : Type 0 where
  pub input_tokens : ℕ
  pub output_tokens : ℕ
  pub total_tokens : ℕ

pub record LlmResult : Type 0 where
  pub text : String
  pub json : Option Value
  pub tool_calls : List LlmToolCall
  pub usage : Usage

pub record Request : Type 0 where
  pub model : String
  pub messages : List Message
  pub tools : List LlmTool
  pub force_json : Bool
  pub parameters : Params

-- llm.Message{Role: role, Content: content}
abbrev pub plain_message : String → String → Message
plain_message role content = record {
  role = role;
  content = content;
  tool_call_id = "";
  tool_calls = [];
}
