-- ===== src/Agent/Safety/Rules.antt =====
-- The rules under which a predicate on worlds survives one tool call.
use mister_morph.Base.{ℕ, String, ◌≡◌, ◌⊎◌, some, List, All}
use mister_morph.Llm.{Message, Request}
use mister_morph.Guard.Types.{Meta, Action, GuardResult, allow, allow_with_redact}
use mister_morph.Tools.{Tool}
use mister_morph.Agent.Types.{ToolCall, Context}
use mister_morph.Agent.Host.{Engine, GuardOps, PlanStepUpdate}
use mister_morph.Agent.Engine.ToolGuard.{pre_action, active_guard, tool_policy}
use mister_morph.Tools

-- At some time the guard has let a tool call pass without an approval.
pub record IsAllowed {W : Type 0} (g : GuardOps W) (tc : ToolCall) : Type 0 where
  pub at : Meta
  pub world : W
  pub verdict :
      ((g.evaluate at (pre_action tc) world).0.decision ≡ allow)
      ⊎ ((g.evaluate at (pre_action tc) world).0.decision ≡ allow_with_redact)

-- `P` survives all that a run asks of its host, except the execution of tools that the guard does
-- not let pass without an approval.
pub record Rules {W : Type 0} (e : Engine W) (g : GuardOps W) (P : W → Type 0) : Type 0 where
  pub active : active_guard e ≡ some g
  pub chat : (r : Request) (w : W) → P w → P (e.chat r w).1
  pub evaluate : (m : Meta) (a : Action) (w : W) → P w → P (g.evaluate m a w).1
  pub request :
      (m : Meta) (a : Action) (gr : GuardResult) (s b : String) (w : W)
      → P w
      → P (g.request_approval m a gr s b w).1
  pub hooks :
      All
        (λ h. (step : ℕ) (c : Context) (ms : List Message) (w : W) → P w → P (h step c ms w).world)
        e.hooks
  pub on_success :
      (f : Context → String → W → W)
      → e.on_tool_success ≡ some f
      → (c : Context) (n : String) (w : W) → P w
      → P (f c n w)
  pub on_update :
      (f : Context → PlanStepUpdate → W → W)
      → e.on_plan_step_update ≡ some f
      → (c : Context) (u : PlanStepUpdate) (w : W) → P w
      → P (f c u w)
  pub execute :
      (tc : ToolCall) (tool : Tool W)
      → Tools.get e.registry tc.name ≡ some tool
      → IsAllowed g tc
      → (w : W) → P w
      → P (tool.execute (tool_policy e (some g) tc) tc.params w).world
