-- ===== src/Agent/Host.antt =====
-- What the engine of agent/engine.go is given: the model's client, the tools, the guard, the hooks
-- and callbacks, and the configuration. `W` is everything outside the engine that a call can change.
-- Hooks and callbacks may read the context and change the world; a hook may change the messages.
-- Those of this repository write nothing into the context, and these cannot.
use mister_morph.Base.{ℤ, ℕ, String, Bool, Option, List}
use mister_morph.Base.Json.{Params}
use mister_morph.Base.Result.{Except}
use mister_morph.Llm.{Message, LlmResult, Request}
use mister_morph.Guard.Types.{Meta, Action, GuardResult, NetworkPolicy}
use mister_morph.Tools.{Registry}
use mister_morph.Agent.Plan.{Plan}
use mister_morph.Agent.Types.{Final, Context}
use mister_morph.Agent.State.{ResumeState}
use mister_morph.Agent.Parser.{Decoder}

pub record HookRun (W : Type 0) : Type 0 where
  pub error : Option String
  pub messages : List Message
  pub world : W

abbrev pub Hook : Type 0 → Type 0
Hook W = ℕ → Context → List Message → W → HookRun W

pub record PlanStepUpdate : Type 0 where
  pub completed_index : ℤ
  pub completed_step : String
  pub started_index : ℤ
  pub started_step : String
  pub reason : String

-- The methods of *guard.Guard that the engine calls.
pub record GuardOps (W : Type 0) : Type 0 where
  pub enabled : Bool
  pub evaluate : Meta → Action → W → GuardResult × W
  pub request_approval :
      Meta → Action → GuardResult → String → String → W → Except String String × W
  pub network_policy_for_url_fetch : Option NetworkPolicy

pub record Engine (W : Type 0) : Type 0 where
  pub chat : Request → W → Except String LlmResult × W
  pub registry : Registry W
  pub max_token_budget : ℕ
  pub parse_retries : ℕ
  pub hooks : List (Hook W)
  pub on_tool_success : Option (Context → String → W → W)
  pub on_plan_step_update : Option (Context → PlanStepUpdate → W → W)
  pub fallback_final : Option (Option Final)
  pub skill_auth_profiles : List String
  pub enforce_skill_auth : Bool
  pub guard : Option (GuardOps W)
  -- ctx.Err()
  pub cancelled : W → Option String
  -- time.Now(), in nanoseconds
  pub now : W → ℕ
  -- os.Stat succeeds
  pub exists : String → W → Bool
  pub decoder : Decoder
  -- jsonutil.DecodeWithFallback into `{"plan": ...}`
  pub decode_plan : String → Option Plan
  -- json.Marshal of tool parameters
  pub marshal_params : Params → String
  -- json.Marshal of a resume state
  pub marshal_resume : ResumeState → Except String String
  -- fmt's %q
  pub quote : String → String
