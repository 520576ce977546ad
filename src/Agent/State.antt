-- ===== src/Agent/State.antt =====
-- The state of the engine's loop (agent/engine_loop.go) and its snapshot in an approval request
-- (agent/engine_runstate.go). A duration is a number of nanoseconds, stored in milliseconds.
pub mod RoundTrip
use Prim.Native.Nat.{◌/◌}
use mister_morph.Base.{
  ℕ, String, Bool, Option, none, some, List, ◌++◌, map, ◌*◌, ◌==◌, if◌then◌else◌,
}
use mister_morph.Base.Json.{Params}
use mister_morph.Llm.{Message, LlmTool}
use mister_morph.Agent.Plan.{Plan}
use mister_morph.Agent.Types.{ToolCall, Step, Metrics, Context, new_context}

pub record PendingTool : Type 0 where
  pub assistant_text : String
  pub assistant_text_added : Bool
  pub tool_call : ToolCall
  pub remaining_tool_calls : List ToolCall

pub record LoopState : Type 0 where
  pub run_id : String
  pub model : String
  pub messages : List Message
  pub ctx : Context
  pub extra_params : Params
  pub tools : List LlmTool
  pub plan_required : Bool
  pub parse_failures : ℕ
  pub requested_writes : List String
  pub pending_tool : Option PendingTool
  pub approved_pending_tool : Bool
  pub next_step : ℕ
  pub last_tool_sig : String
  pub last_tool_repeat : ℕ

-- st.messages = append(st.messages, ms...)
abbrev pub add_messages : List Message → LoopState → LoopState
add_messages ms st = record st { messages = st.messages ++ ms }

pub record StepSnapshot : Type 0 where
  pub step_number : ℕ
  pub thought : String
  pub action : String
  pub action_input : Params
  pub observation : String
  pub error : String
  pub duration_ms : ℕ

pub record ContextSnapshot : Type 0 where
  pub task : String
  pub max_steps : ℕ
  pub plan : Option Plan
  pub metrics : Option Metrics
  pub steps : List StepSnapshot

pub record ResumeState : Type 0 where
  pub version : ℕ
  pub run_id : String
  pub model : String
  pub step : ℕ
  pub plan_required : Bool
  pub parse_failures : ℕ
  pub skill_auth_profiles : List String
  pub enforce_skill_auth : Bool
  pub messages : List Message
  pub extra_params : Params
  pub agent_ctx : ContextSnapshot
  pub pending_tool : PendingTool

abbrev pub error_text : Option String → String
error_text none = ""
error_text (some e) = e

abbrev pub snapshot_step : Step → StepSnapshot
snapshot_step s = record {
  step_number = s.step_number;
  thought = s.thought;
  action = s.action;
  action_input = s.action_input;
  observation = s.observation;
  error = error_text s.error;
  duration_ms = s.duration / 1000000;
}

-- snapshotFromContext
unfoldable pub snapshot_from_context : Context → ContextSnapshot
snapshot_from_context c = record {
  task = c.task;
  max_steps = c.max_steps;
  plan = c.plan;
  metrics = some c.metrics;
  steps = map snapshot_step c.steps;
}

abbrev pub restore_error : String → Option String
restore_error e = if e == "" then none else some e

abbrev pub restore_step : StepSnapshot → Step
restore_step s = record {
  step_number = s.step_number;
  thought = s.thought;
  action = s.action;
  action_input = s.action_input;
  observation = s.observation;
  error = restore_error s.error;
  duration = s.duration_ms * 1000000;
}

-- contextFromSnapshot
unfoldable pub context_from_snapshot : ContextSnapshot → Context
unfolding new_context
context_from_snapshot s =
    let c = new_context s.task s.max_steps in
    record c {
      plan = s.plan;
      metrics = elim s.metrics [ none ↦ c.metrics | some m ↦ m ];
      steps = map restore_step s.steps;
    }
