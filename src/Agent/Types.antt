-- ===== src/Agent/Types.antt =====
-- agent/types.go, agent/context.go and agent/pending.go. Costs, and the clocks of the context, are left out.
use mister_morph.Base.{
  ℕ, ◌+◌, String, Option, none, some, List, [], ◌∷◌, ◌++◌, nat_eq, if◌then◌else◌,
}
use mister_morph.Base.Json.{Params, Value}
use mister_morph.Llm.{Usage}
use mister_morph.Agent.Plan.{Plan}

pub record ToolCall : Type 0 where
  pub id : String
  pub thought : String
  pub name : String
  pub params : Params

pub record PendingOutput : Type 0 where
  pub status : String
  pub approval_request_id : String
  pub message : String

-- The dynamic types that the engine meets in Final.Output.
pub data Output : Type 0 where
  text : String → Output
  pending : PendingOutput → Output
  other : Value → Output

pub record Final : Type 0 where
  pub thought : String
  pub output : Output
  pub plan : Option Plan

pub record AgentResponse : Type 0 where
  pub type : String
  pub tool_call : Option ToolCall
  pub tool_calls : List ToolCall
  pub plan : Option Plan
  pub final : Option Final
  pub final_answer : Option Final
  pub raw_final_answer : String

abbrev pub type_tool_call : String
type_tool_call = "tool_call"

abbrev pub type_plan : String
type_plan = "plan"

abbrev pub type_final : String
type_final = "final"

abbrev pub type_final_answer : String
type_final_answer = "final_answer"

-- FinalPayload
abbrev pub final_payload : AgentResponse → Option Final
final_payload r = elim r.final [ none ↦ r.final_answer | some f ↦ some f ]

-- The zero AgentResponse.
abbrev pub no_response : AgentResponse
no_response = record {
  type = "";
  tool_call = none;
  tool_calls = [];
  plan = none;
  final = none;
  final_answer = none;
  raw_final_answer = "";
}

-- The errors of the engine, with the step and the cause that their texts name.
pub data Failure : Type 0 where
  cancelled : ℕ → String → Failure
  hook_failed : String → Failure
  llm_failed : ℕ → String → Failure
  invalid_tool_call parse_failure invalid_plan invalid_final : Failure
  tool_failed : String → Failure
  decode_failed : String → Failure

pub record Step : Type 0 where
  pub step_number : ℕ
  pub thought : String
  pub action : String
  pub action_input : Params
  pub observation : String
  pub error : Option String
  -- in nanoseconds
  pub duration : ℕ

pub record Metrics : Type 0 where
  pub llm_rounds : ℕ
  pub total_tokens : ℕ
  pub tool_calls : ℕ
  pub parse_retries : ℕ

pub record Context : Type 0 where
  pub task : String
  pub steps : List Step
  pub max_steps : ℕ
  pub plan : Option Plan
  pub metrics : Metrics
  pub raw_final_answer : String

unfoldable pub new_context : String → ℕ → Context
new_context task max_steps = record {
  task = task;
  steps = [];
  max_steps = max_steps;
  plan = none;
  metrics = record { llm_rounds = 0; total_tokens = 0; tool_calls = 0; parse_retries = 0 };
  raw_final_answer = "";
}

-- RecordStep
unfoldable pub record_step : Step → Context → Context
record_step s c = record c {
  steps = c.steps ++ s ∷ [];
  metrics = record c.metrics { tool_calls = c.metrics.tool_calls + 1 };
}

-- AddUsage: the input and output tokens count only while the running total is 0.
unfoldable pub add_usage : Usage → Context → Context
add_usage u c =
    let total = c.metrics.total_tokens + u.total_tokens in
    record c {
      metrics = record c.metrics {
        llm_rounds = c.metrics.llm_rounds + 1;
        total_tokens = if nat_eq total 0 then u.input_tokens + u.output_tokens else total;
      };
    }
