-- ===== src/Agent/Guarded.antt =====
-- The engine of agent/engine_loop.go with the guard of guard/guard.go.
mod Examples
use mister_morph.Base.{
  trim_space, ℕ, ◌-◌, String, ◌≡◌, refl, ap, ◌∙◌, ◌≢◌, inl, inr, true, false, Option, none, some,
  List, arith, if◌then◌else◌, All,
}
use mister_morph.Base.Json.{get_string, Params}
use mister_morph.Base.Result.{Except}
use mister_morph.Llm.{Message, Request}
use mister_morph.Guard.Types.{NetworkPolicy, Meta, Action, GuardResult, allow_with_redact}
use mister_morph.Guard.Policy.{
  text_or_empty, Policy, evaluate, eval_tool_call_pre, eval_url_fetch, eval_url,
}
use mister_morph.Guard.Policy.Passing.{Passes, evaluate-Passes}
use mister_morph.Tools.{Tool}
use mister_morph.Agent.Types.{ToolCall, Context}
use mister_morph.Agent.State.{LoopState}
use mister_morph.Agent.Host.{Engine, GuardOps, PlanStepUpdate}
use mister_morph.Agent.Engine.ToolGuard.{pre_action, active_guard, tool_policy}
use mister_morph.Agent.Engine.Loop.{run_loop}
use mister_morph.Agent.Safety.Rules.{Rules, IsAllowed}
use mister_morph.Agent.Safety.Run.{run_loop-keeps}
use mister_morph.Tools

-- What the methods of *guard.Guard do besides deciding: the audit log, and RequestApproval.
pub record Effects (W : Type 0) : Type 0 where
  pub audit : Meta → Action → GuardResult → W → W
  pub request_approval :
      Meta → Action → GuardResult → String → String → W → Except String String × W

-- A guard.Guard as the engine uses it.
unfoldable pub guard_of : {W : Type 0} → Policy → Effects W → GuardOps W
guard_of p fx = record {
  enabled = p.enabled;
  evaluate = λ m a w. (evaluate p a, fx.audit m a (evaluate p a) w);
  request_approval = fx.request_approval;
  network_policy_for_url_fetch = if p.enabled then some p.url_fetch else none;
}

-- The verdict on a call never redacts.
abbrev IsPlain : GuardResult → Type 0
IsPlain r = r.decision ≢ allow_with_redact

eval_url-IsPlain : (p : Policy) (url : String) → IsPlain (eval_url p url)
unfolding eval_url
eval_url-IsPlain p url h = ground arith

eval_url_fetch-IsPlain : (p : Policy) (params : Params) → IsPlain (eval_url_fetch p params)
unfolding eval_url_fetch
eval_url_fetch-IsPlain p params h =
    ground (arith, eval_url-IsPlain p (trim_space (text_or_empty (get_string "url" params))))

eval_tool_call_pre-IsPlain : (p : Policy) (a : Action) → IsPlain (eval_tool_call_pre p a)
unfolding eval_tool_call_pre
eval_tool_call_pre-IsPlain p a h = ground (arith, eval_url_fetch-IsPlain p a.tool_params)

pre_action-IsPlain : (p : Policy) (tc : ToolCall) → IsPlain (evaluate p (pre_action tc))
unfolding evaluate
pre_action-IsPlain p tc h = ground (arith, eval_tool_call_pre-IsPlain p (pre_action tc))

IsAllowed-Passes :
    {W : Type 0} (p : Policy) (fx : Effects W) (tc : ToolCall)
    → p.enabled ≡ true
    → IsAllowed (guard_of p fx) tc
    → Passes p (pre_action tc)
unfolding guard_of
IsAllowed-Passes p fx tc on h = elim h.verdict [
  | inl plain ↦ evaluate-Passes p (pre_action tc) on refl plain
  | inr redacted ↦ absurd (pre_action-IsPlain p tc redacted)
]

-- `P` survives all that a run asks of its host, except the execution of tools on calls that the
-- guard does not let pass.
pub record PassingRules {W : Type 0} (e : Engine W) (p : Policy) (fx : Effects W) (P : W → Type 0)
    : Type 0 where
  pub guarded : e.guard ≡ some (guard_of p fx)
  pub chat : (r : Request) (w : W) → P w → P (e.chat r w).1
  pub audit : (m : Meta) (a : Action) (r : GuardResult) (w : W) → P w → P (fx.audit m a r w)
  pub request :
      (m : Meta) (a : Action) (gr : GuardResult) (s b : String) (w : W)
      → P w
      → P (fx.request_approval m a gr s b w).1
  pub hooks :
      All
        (λ h. (step : ℕ) (c : Context) (ms : List Message) (w : W) → P w → P (h step c ms w).world)
        e.hooks
  pub on_success :
      (f : Context → String → W → W)
      → e.on_tool_success ≡ some f
      → (c : Context) (n : String) (w : W) → P w
      → P (f c n w)
  pub on_update :
      (f : Context → PlanStepUpdate → W → W)
      → e.on_plan_step_update ≡ some f
      → (c : Context) (u : PlanStepUpdate) (w : W) → P w
      → P (f c u w)
  pub execute :
      (tc : ToolCall) (tool : Tool W)
      → Tools.get e.registry tc.name ≡ some tool
      → Passes p (pre_action tc)
      → (policy : Option NetworkPolicy) (w : W) → P w
      → P (tool.execute policy tc.params w).world

active_guard_of :
    {W : Type 0} (e : Engine W) (p : Policy) (fx : Effects W)
    → p.enabled ≡ true
    → e.guard ≡ some (guard_of p fx)
    → active_guard e ≡ some (guard_of p fx)
unfolding active_guard guard_of
active_guard_of {W} e p fx on h =
    ap
      (λ o. elim o as (λ _. Option (GuardOps W)) [
        | none ↦ none
        | some g ↦ if g.enabled then some g else none
      ])
      h
    ∙ ap (λ b. if b then some (guard_of p fx) else none) on

PassingRules-Rules :
    {W : Type 0} (e : Engine W) (p : Policy) (fx : Effects W) (P : W → Type 0)
    → p.enabled ≡ true
    → PassingRules e p fx P
    → Rules e (guard_of p fx) P
unfolding guard_of
PassingRules-Rules e p fx P on rules = record {
  active = active_guard_of e p fx on rules.guarded;
  chat = rules.chat;
  evaluate = λ m a w h. rules.audit m a (evaluate p a) w h;
  request = rules.request;
  hooks = rules.hooks;
  on_success = rules.on_success;
  on_update = rules.on_update;
  execute = λ tc tool q pass w h.
      rules.execute tc tool q (IsAllowed-Passes p fx tc on pass)
        (tool_policy e (some (guard_of p fx)) tc) w h;
}

-- With an enabled guard of guard/guard.go, a run that does not resume an approved call executes tools
-- only on calls that pass: it keeps every predicate on worlds that the host's other operations and
-- the executions of tools on such calls keep.
pub run_loop-Passes :
    {W : Type 0} (e : Engine W) (p : Policy) (fx : Effects W) (P : W → Type 0)
    → p.enabled ≡ true
    → PassingRules e p fx P
    → (st : LoopState) (w : W) → st.approved_pending_tool ≡ false
    → P w
    → P (run_loop e st w).world
run_loop-Passes e p fx P on rules st w fresh h =
    run_loop-keeps e (guard_of p fx) P (PassingRules-Rules e p fx P on rules) st w fresh h
