-- ===== src/Agent/Safety/Answers.antt =====
-- The cases of the `switch` keep the predicate.
use mister_morph.Base.{
  is_blank, ℕ, String, inl, inr, Bool, true, false, not, ◌&&◌, Option, none, some, ◌==◌,
  if◌then◌else◌, Bool-cases, Option-cases,
}
use mister_morph.Agent.Types.{ToolCall, Final, Output, Context, AgentResponse, final_payload}
use mister_morph.Agent.Plan.{Advance}
use mister_morph.Agent.State.{LoopState}
use mister_morph.Agent.Host.{Engine, GuardOps}
use mister_morph.Agent.Engine.Force.{with_plan}
use mister_morph.Agent.Engine.Answer.{
  Turn, must_write, publish_text, publish, with_payload, take_final, complete_plan,
}
use mister_morph.Agent.Engine.Calls.{
  has_plan, notify_update, notify_success, advanced_plan, on_success, after_tool, update_of,
}
use mister_morph.Agent.Safety.Rules.{Rules}
use mister_morph.Agent.Safety.Turns.{Fresh, OnTurn, next_on, done_on}

module _ {W : Type 0} (P : W → Type 0) where
  pub OnTurn-if :
      (b : Bool) (x y : Turn W) → OnTurn P x → OnTurn P y → OnTurn P (if b then x else y)
  OnTurn-if true x y h k = h
  OnTurn-if false x y h k = k

  pub keeps-if : (b : Bool) (v w : W) → P v → P w → P (if b then v else w)
  keeps-if true v w h k = h
  keeps-if false v w h k = k

module _ {W : Type 0} (e : Engine W) (g : GuardOps W) (P : W → Type 0) (rules : Rules e g P) where
  publish_text-keeps :
      (st : LoopState) (step : ℕ) (f : Final) (s : String) (w : W)
      → P w
      → P (publish_text e g st step f s w).1
  unfolding publish_text
  publish_text-keeps st step f s w p = elim (Bool-cases (is_blank s)) [
    | inl b ↦ rw b p
    | inr b ↦ rw b (rules.evaluate _ _ w p)
  ]

  publish-keeps :
      (st : LoopState) (step : ℕ) (f : Final) (w : W) → P w → P (publish e (some g) st step f w).1
  unfolding publish
  publish-keeps st step f w p = pick f.output
    where
      pick :
          (o : Output)
          → P
              (elim o as (λ _. Final × W) [
                | Output.text s ↦ publish_text e g st step f s w
                | Output.pending x ↦ (f, w)
                | Output.other v ↦ (f, w)
              ]).1
      pick (Output.text s) = publish_text-keeps st step f s w p
      pick (Output.pending x) = p
      pick (Output.other v) = p

  pub take_final-keeps :
      (r : AgentResponse) (text : String) (st : LoopState) (step : ℕ) (w : W)
      → Fresh P st w
      → OnTurn P (take_final e r text st step w)
  unfolding take_final
  take_final-keeps r text st step w f = payload (final_payload r)
    where
      st' : LoopState
      st' = record st { ctx = record st.ctx { raw_final_answer = r.raw_final_answer } }

      payload : (o : Option Final) → OnTurn P (with_payload e text st' step o w)
      payload none = done_on f.0
      payload (some fp) =
          let st'' = record st' { ctx = complete_plan st'.ctx } in
          elim (Option-cases (must_write e st'' w)) [
            | inl nothing ↦
                rw (nothing, with_payload, rules.active)
                  (done_on (publish-keeps st'' step (with_plan st''.ctx fp) w f.0))
            | inr (note, wanted) ↦ rw (wanted, with_payload) (next_on f)
          ]

  notify_update-keeps : (c : Context) (a : Advance) (w : W) → P w → P (notify_update e c a w)
  unfolding notify_update
  notify_update-keeps c a w p = elim (Option-cases e.on_plan_step_update) [
    | inl off ↦ rw off p
    | inr (h, on) ↦ rw on (keeps-if P a.advanced _ w (rules.on_update h on c (update_of a) w p) p)
  ]

  notify_success-keeps : (c : Context) (n : String) (w : W) → P w → P (notify_success e c n w)
  unfolding notify_success
  notify_success-keeps c n w p = elim (Option-cases e.on_tool_success) [
    | inl off ↦ rw off p
    | inr (h, on) ↦ rw on (rules.on_success h on c n w p)
  ]

  advanced_plan-keeps : (tc : ToolCall) (c : Context) (w : W) → P w → P (advanced_plan e tc c w).1
  unfolding advanced_plan
  advanced_plan-keeps tc c w p = elim (Bool-cases (has_plan c && not (tc.name == "plan_create"))) [
    | inl b ↦ rw b (notify_update-keeps _ _ w p)
    | inr b ↦ rw b p
  ]

  pub after_tool-keeps :
      (tc : ToolCall) (observation : String) (error : Option String) (c : Context) (w : W)
      → P w
      → P (after_tool e tc observation error c w).1
  unfolding after_tool
  after_tool-keeps tc observation (some m) c w p = p
  after_tool-keeps tc observation none c w p =
      unfold on_success in advanced_plan-keeps tc _ _ (notify_success-keeps _ tc.name w p)
