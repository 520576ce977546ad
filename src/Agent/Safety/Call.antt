-- ===== src/Agent/Safety/Call.antt =====
-- One tool call keeps the predicate.
use mister_morph.Base.{
  if◌then◌else◌, true, arith, concat, join, ℕ, String, ◌≡◌, refl, inl, inr, Bool, false, some, List,
  [], ◌∷◌, Option-cases,
}
use mister_morph.Base.Result.{Except, ok, err}
use mister_morph.Guard.Types.{
  Meta, GuardResult, Decision, allow, allow_with_redact, require_approval, deny,
}
use mister_morph.Tools.{Tool}
use mister_morph.Agent.Types.{ToolCall}
use mister_morph.Agent.State.{LoopState}
use mister_morph.Agent.Host.{Engine, GuardOps}
use mister_morph.Agent.Engine.ToolGuard.{
  ToolOutcome, pre_action, meta_at, run_tool, resume_state, after_request, pause, pre_checked,
  execute_tool_with_guard, returned,
}
use mister_morph.Agent.Safety.Rules.{Rules, IsAllowed}
use mister_morph.Tools

module _ {W : Type 0} (e : Engine W) (g : GuardOps W) (P : W → Type 0) (rules : Rules e g P) where
  run_tool-keeps :
      (st : LoopState) (step : ℕ) (tc : ToolCall) (tool : Tool W) (w : W)
      → Tools.get e.registry tc.name ≡ some tool
      → IsAllowed g tc
      → P w
      → P (run_tool e st step tc tool w).world
  unfolding run_tool
  run_tool-keeps st step tc tool w found allowed p =
      rw rules.active (rules.evaluate _ _ _ (rules.execute tc tool found allowed w p))

  after_request-keeps :
      (st : LoopState) (step : ℕ) (tc : ToolCall) (x : Except String String × W)
      → P x.1
      → P (after_request e st step tc x).world
  unfolding after_request
  after_request-keeps st step tc (ok id, w) p = p
  after_request-keeps st step tc (err m, w) p = p

  pause-keeps :
      (gr : GuardResult) (st : LoopState) (step : ℕ) (text : String) (tc : ToolCall)
      (remaining : List ToolCall) (added : Bool) (w : W)
      → P w
      → P (pause e g gr st step text tc remaining added w).world
  unfolding pause
  pause-keeps gr st step text tc remaining added w p =
      pick (e.marshal_resume (resume_state e st step text tc remaining added))
    where
      pick :
          (x : Except String String)
          → P
              (elim x as (λ _. ToolOutcome W) [
                | err m ↦ returned "" (some m) w
                | ok bytes ↦ after_request e st step tc (
                    g.request_approval
                      (meta_at e st step w)
                      (pre_action tc)
                      gr
                      (concat ("ToolCallPre tool=" ∷ tc.name ∷ []))
                      bytes
                      w)
              ]).world
      pick (err m) = p
      pick (ok bytes) = after_request-keeps st step tc _ (rules.request _ _ gr _ bytes w p)

  pre_checked-keeps :
      (st : LoopState) (step : ℕ) (text : String) (tc : ToolCall) (remaining : List ToolCall)
      (added : Bool) (tool : Tool W) (w : W)
      → st.approved_pending_tool ≡ false
      → Tools.get e.registry tc.name ≡ some tool
      → P w
      → P (pre_checked e (some g) st step text tc remaining added tool w).world
  unfolding pre_checked
  pre_checked-keeps st step text tc remaining added tool w fresh found p =
      pick (g.evaluate m (pre_action tc) w).0.decision refl
    where
      m : Meta
      m = meta_at e st step w

      w' : W
      w' = (g.evaluate m (pre_action tc) w).1

      p' : P w'
      p' = rules.evaluate m (pre_action tc) w p

      asked :
          (b : Bool)
          → b ≡ false
          → P
              (if b
                then run_tool e st step tc tool w'
                else pause e g
                    (g.evaluate m (pre_action tc) w).0
                    st
                    step
                    text
                    tc
                    remaining
                    added
                    w').world
      asked true h = absurd (ground arith)
      asked false h =
          pause-keeps (g.evaluate m (pre_action tc) w).0 st step text tc remaining added w' p'

      pick :
          (d : Decision)
          → (g.evaluate m (pre_action tc) w).0.decision ≡ d
          → P
              (elim d as (λ _. ToolOutcome W) [
                | allow ↦ run_tool e st step tc tool w'
                | allow_with_redact ↦ run_tool e st step tc tool w'
                | require_approval ↦
                    if st.approved_pending_tool
                    then run_tool e st step tc tool w'
                    else pause e g
                        (g.evaluate m (pre_action tc) w).0
                        st
                        step
                        text
                        tc
                        remaining
                        added
                        w'
                | deny ↦
                    returned
                      (concat (
                        "Error: blocked by guard ("
                        ∷ join "; " (g.evaluate m (pre_action tc) w).0.reasons
                        ∷ ")"
                        ∷ []))
                      (some "blocked by guard")
                      w'
              ]).world
      pick allow h =
          run_tool-keeps st step tc tool w' found (record { at = m; world = w; verdict = inl h }) p'
      pick allow_with_redact h =
          run_tool-keeps st step tc tool w' found (record { at = m; world = w; verdict = inr h }) p'
      pick require_approval h = asked st.approved_pending_tool fresh
      pick deny h = p'

  pub execute_tool-keeps :
      (st : LoopState) (step : ℕ) (text : String) (tc : ToolCall) (remaining : List ToolCall)
      (added : Bool) (w : W)
      → st.approved_pending_tool ≡ false
      → P w
      → P (execute_tool_with_guard e st step text tc remaining added w).world
  unfolding execute_tool_with_guard
  execute_tool-keeps st step text tc remaining added w fresh p =
      elim (Option-cases (Tools.get e.registry tc.name)) [
        | inl missing ↦ rw (missing, execute_tool_with_guard) p
        | inr (tool, found) ↦
            rw (found, rules.active, execute_tool_with_guard)
              (pre_checked-keeps st step text tc remaining added tool w fresh found p)
      ]
