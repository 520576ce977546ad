-- ===== src/Agent/Limits/Tally.antt =====
-- The calls of the model that a host sees: no other operation of a run makes one.
use mister_morph.Base.{
  concat, join, ℕ, suc, String, ◌≡◌, refl, ◌∙◌, inl, inr, Bool, true, false, not, ◌&&◌, Option,
  none, some, List, [], ◌∷◌, ◌==◌, All, if◌then◌else◌, Bool-cases, Option-cases, is_blank,
}
use mister_morph.Base.Json.{Params}
use mister_morph.Base.Result.{Except, ok, err}
use mister_morph.Llm.{Message, Request}
use mister_morph.Guard.Types.{
  Meta, Action, GuardResult, Decision, allow, allow_with_redact, require_approval, deny,
  NetworkPolicy,
}
use mister_morph.Tools.{Tool}
use mister_morph.Agent.Plan.{Advance}
use mister_morph.Agent.Types.{ToolCall, Context, Final, Output}
use mister_morph.Agent.State.{LoopState}
use mister_morph.Agent.Host.{Engine, GuardOps, PlanStepUpdate}
use mister_morph.Agent.Engine.ToolGuard.{
  ToolOutcome, active_guard, meta_at, pre_action, post_checked, run_tool, resume_state,
  after_request, pause, pre_checked, execute_tool_with_guard, returned,
}
use mister_morph.Agent.Engine.Answer.{publish_text, publish}
use mister_morph.Agent.Engine.Calls.{
  has_plan, notify_update, notify_success, advanced_plan, on_success, after_tool, update_of,
}
use mister_morph.Tools

-- A number in the world that each call of the model raises by one and that nothing else changes: how
-- often the model was called.
pub record Tally {W : Type 0} (e : Engine W) (calls : W → ℕ) : Type 0 where
  pub chat : (r : Request) (w : W) → calls (e.chat r w).1 ≡ suc (calls w)
  pub evaluate :
      (g : GuardOps W)
      → active_guard e ≡ some g
      → (m : Meta) (a : Action) (w : W) → calls (g.evaluate m a w).1 ≡ calls w
  pub request :
      (g : GuardOps W)
      → active_guard e ≡ some g
      → (m : Meta) (a : Action) (gr : GuardResult) (s b : String) (w : W)
      → calls (g.request_approval m a gr s b w).1 ≡ calls w
  pub hooks :
      All
        (λ h.
          (step : ℕ) (c : Context) (ms : List Message) (w : W)
          → calls (h step c ms w).world ≡ calls w)
        e.hooks
  pub on_success :
      (f : Context → String → W → W)
      → e.on_tool_success ≡ some f
      → (c : Context) (n : String) (w : W) → calls (f c n w) ≡ calls w
  pub on_update :
      (f : Context → PlanStepUpdate → W → W)
      → e.on_plan_step_update ≡ some f
      → (c : Context) (u : PlanStepUpdate) (w : W) → calls (f c u w) ≡ calls w
  pub execute :
      (name : String) (tool : Tool W)
      → Tools.get e.registry name ≡ some tool
      → (policy : Option NetworkPolicy) (params : Params) (w : W)
      → calls (tool.execute policy params w).world ≡ calls w

module _ {W : Type 0} (e : Engine W) (calls : W → ℕ) (tally : Tally e calls) where
  post_checked-calls :
      (o : Option (GuardOps W)) (st : LoopState) (step : ℕ) (tc : ToolCall) (observation : String)
      (error : Option String) (w : W)
      → active_guard e ≡ o
      → calls (post_checked e o st step tc observation error w).world ≡ calls w
  unfolding post_checked
  post_checked-calls none st step tc observation error w q = refl
  post_checked-calls (some g) st step tc observation error w q = tally.evaluate g q _ _ w

  run_tool-calls :
      (st : LoopState) (step : ℕ) (tc : ToolCall) (tool : Tool W) (w : W)
      → Tools.get e.registry tc.name ≡ some tool
      → calls (run_tool e st step tc tool w).world ≡ calls w
  unfolding run_tool
  run_tool-calls st step tc tool w found =
      post_checked-calls (active_guard e) st step tc _ _ _ refl
      ∙ tally.execute tc.name tool found _ _ w

  after_request-world :
      (st : LoopState) (step : ℕ) (tc : ToolCall) (x : Except String String × W)
      → calls (after_request e st step tc x).world ≡ calls x.1
  unfolding after_request
  after_request-world st step tc (ok id, w) = refl
  after_request-world st step tc (err m, w) = refl

  pause-calls :
      (g : GuardOps W) (gr : GuardResult) (st : LoopState) (step : ℕ) (text : String)
      (tc : ToolCall) (remaining : List ToolCall) (added : Bool) (w : W)
      → active_guard e ≡ some g
      → calls (pause e g gr st step text tc remaining added w).world ≡ calls w
  unfolding pause
  pause-calls g gr st step text tc remaining added w q =
      pick (e.marshal_resume (resume_state e st step text tc remaining added))
    where
      pick :
          (x : Except String String)
          → calls
              (elim x as (λ _. ToolOutcome W) [
                | err m ↦ returned "" (some m) w
                | ok bytes ↦ after_request e st step tc (
                    g.request_approval
                      (meta_at e st step w)
                      (pre_action tc)
                      gr
                      (concat ("ToolCallPre tool=" ∷ tc.name ∷ []))
                      bytes
                      w)
              ]).world
            ≡ calls w
      pick (err m) = refl
      pick (ok bytes) = after_request-world st step tc _ ∙ tally.request g q _ _ gr _ bytes w

  pre_checked-calls :
      (o : Option (GuardOps W)) (st : LoopState) (step : ℕ) (text : String) (tc : ToolCall)
      (remaining : List ToolCall) (added : Bool) (tool : Tool W) (w : W)
      → active_guard e ≡ o
      → Tools.get e.registry tc.name ≡ some tool
      → calls (pre_checked e o st step text tc remaining added tool w).world ≡ calls w
  unfolding pre_checked
  pre_checked-calls none st step text tc remaining added tool w q found =
      run_tool-calls st step tc tool w found
  pre_checked-calls (some g) st step text tc remaining added tool w q found =
      pick (g.evaluate m (pre_action tc) w).0.decision st.approved_pending_tool
      ∙ tally.evaluate g q _ _ w
    where
      m : Meta
      m = meta_at e st step w

      gr : GuardResult
      gr = (g.evaluate m (pre_action tc) w).0

      w' : W
      w' = (g.evaluate m (pre_action tc) w).1

      pick :
          (d : Decision) (b : Bool)
          → calls
              (elim d as (λ _. ToolOutcome W) [
                | allow ↦ run_tool e st step tc tool w'
                | allow_with_redact ↦ run_tool e st step tc tool w'
                | require_approval ↦
                    if b
                    then run_tool e st step tc tool w'
                    else pause e g gr st step text tc remaining added w'
                | deny ↦
                    returned
                      (concat ("Error: blocked by guard (" ∷ join "; " gr.reasons ∷ ")" ∷ []))
                      (some "blocked by guard")
                      w'
              ]).world
            ≡ calls w'
      pick allow b = run_tool-calls st step tc tool w' found
      pick allow_with_redact b = run_tool-calls st step tc tool w' found
      pick require_approval true = run_tool-calls st step tc tool w' found
      pick require_approval false = pause-calls g gr st step text tc remaining added w' q
      pick deny b = refl

  pub execute_tool-calls :
      (st : LoopState) (step : ℕ) (text : String) (tc : ToolCall) (remaining : List ToolCall)
      (added : Bool) (w : W)
      → calls (execute_tool_with_guard e st step text tc remaining added w).world ≡ calls w
  unfolding execute_tool_with_guard
  execute_tool-calls st step text tc remaining added w =
      elim (Option-cases (Tools.get e.registry tc.name)) [
        | inl missing ↦ rw (missing, execute_tool_with_guard) refl
        | inr (tool, found) ↦
            rw (found, execute_tool_with_guard)
              (pre_checked-calls (active_guard e) st step text tc remaining added tool w refl found)
      ]

  publish_text-calls :
      (g : GuardOps W) (st : LoopState) (step : ℕ) (f : Final) (s : String) (w : W)
      → active_guard e ≡ some g
      → calls (publish_text e g st step f s w).1 ≡ calls w
  unfolding publish_text
  publish_text-calls g st step f s w q = elim (Bool-cases (is_blank s)) [
    | inl b ↦ rw b refl
    | inr b ↦ rw b (tally.evaluate g q _ _ w)
  ]

  pub publish-calls :
      (o : Option (GuardOps W)) (st : LoopState) (step : ℕ) (f : Final) (w : W)
      → active_guard e ≡ o
      → calls (publish e o st step f w).1 ≡ calls w
  unfolding publish
  publish-calls none st step f w q = refl
  publish-calls (some g) st step f w q = pick f.output
    where
      pick :
          (o : Output)
          → calls
              (elim o as (λ _. Final × W) [
                | Output.text s ↦ publish_text e g st step f s w
                | Output.pending x ↦ (f, w)
                | Output.other v ↦ (f, w)
              ]).1
            ≡ calls w
      pick (Output.text s) = publish_text-calls g st step f s w q
      pick (Output.pending x) = refl
      pick (Output.other v) = refl

  calls-if : (b : Bool) (v w : W) → calls v ≡ calls w → calls (if b then v else w) ≡ calls w
  calls-if true v w h = h
  calls-if false v w h = refl

  notify_update-calls :
      (c : Context) (a : Advance) (w : W) → calls (notify_update e c a w) ≡ calls w
  unfolding notify_update
  notify_update-calls c a w = elim (Option-cases e.on_plan_step_update) [
    | inl off ↦ rw off refl
    | inr (h, on) ↦ rw on (calls-if a.advanced _ w (tally.on_update h on c (update_of a) w))
  ]

  notify_success-calls :
      (c : Context) (n : String) (w : W) → calls (notify_success e c n w) ≡ calls w
  unfolding notify_success
  notify_success-calls c n w = elim (Option-cases e.on_tool_success) [
    | inl off ↦ rw off refl
    | inr (h, on) ↦ rw on (tally.on_success h on c n w)
  ]

  advanced_plan-calls :
      (tc : ToolCall) (c : Context) (w : W) → calls (advanced_plan e tc c w).1 ≡ calls w
  unfolding advanced_plan
  advanced_plan-calls tc c w = elim (Bool-cases (has_plan c && not (tc.name == "plan_create"))) [
    | inl b ↦ rw b (notify_update-calls _ _ w)
    | inr b ↦ rw b refl
  ]

  pub after_tool-calls :
      (tc : ToolCall) (observation : String) (error : Option String) (c : Context) (w : W)
      → calls (after_tool e tc observation error c w).1 ≡ calls w
  unfolding after_tool
  after_tool-calls tc observation (some m) c w = refl
  after_tool-calls tc observation none c w =
      unfold on_success in advanced_plan-calls tc _ _ ∙ notify_success-calls _ tc.name w
