-- ===== src/Agent/Safety/Run.antt =====
-- A whole run keeps the predicate.
use mister_morph.Agent.Engine.Force.{force_conclusion, Outcome}
use mister_morph.Agent.Engine.Ask.{ask, answer, again, stop, failed, Asked}
use mister_morph.Llm.{LlmToolCall}
use mister_morph.Agent.Engine.Loop.{iteration, turn_of, run_loop, iterate, dispatch}
use mister_morph.Base.{
  ◌-◌, zero, suc, if◌then◌else◌, false, Bool, ℕ, String, ◌≡◌, refl, ◌∙◌, true, Option, none, some,
  List, [], ◌∷◌, arith,
}
use mister_morph.Agent.Types.{AgentResponse, ToolCall, Context, record_step}
use mister_morph.Agent.State.{LoopState, add_messages}
use mister_morph.Agent.Host.{Engine, GuardOps}
use mister_morph.Agent.Engine.ToolGuard.{ToolOutcome, execute_tool_with_guard}
use mister_morph.Agent.Engine.Answer.{break, next, take_final, take_plan, Turn, done}
use mister_morph.Agent.Engine.Calls.{
  calls_of, take_calls, text_added, with_text, start_calls, after_tool, stops_run, settle_call,
  run_calls, step_record, count_repeat, repeated, shown_observation, observation_message,
}
use mister_morph.Agent.Safety.Rules.{Rules}
use mister_morph.Agent.Safety.Call.{execute_tool-keeps}
use mister_morph.Agent.Safety.Turns.{
  ask-keeps, answer_on, again_on, break_on, stop_on, failed_on, OnAsked, Fresh, OnTurn, next_on,
  done_on, force_conclusion-keeps,
}
use mister_morph.Agent.Safety.Answers.{take_final-keeps, OnTurn-if, after_tool-keeps}

-- The count leaves the flag.
pub fresh-count_repeat :
    {W : Type 0} (e : Engine W) (tc : ToolCall) (error : Option String) (st : LoopState)
    → (count_repeat e tc error st).approved_pending_tool ≡ st.approved_pending_tool
unfolding count_repeat
fresh-count_repeat e tc none st = ground arith
fresh-count_repeat e tc (some m) st = refl

module _ {W : Type 0} (e : Engine W) (g : GuardOps W) (P : W → Type 0) (rules : Rules e g P) where
  settle_call-keeps :
      (step started : ℕ) (tc : ToolCall) (o : ToolOutcome W) (st : LoopState)
      (continue : LoopState → W → Turn W)
      → Fresh P st o.world
      → ((st' : LoopState) (w : W) → Fresh P st' w → OnTurn P (continue st' w))
      → OnTurn P (settle_call e step started tc o st continue)
  unfolding settle_call
  settle_call-keeps step started tc o st continue f k =
      OnTurn-if P (stops_run e tc o.error) (done _) _ (done_on p) (
        OnTurn-if P (repeated o.error st'') (done _)
          (continue st'' (after_tool e tc o.observation o.error c o.world).1)
          (done_on (force_conclusion-keeps e g P rules _ _ p))
          (k st'' _ (p, fresh-count_repeat e tc o.error _ ∙ f.1)))
    where
      c : Context
      c = record_step (step_record step tc o.observation o.error (e.now o.world - started)) st.ctx

      p : P (after_tool e tc o.observation o.error c o.world).1
      p = after_tool-keeps e g P rules tc o.observation o.error c o.world f.0

      st'' : LoopState
      st'' = count_repeat e tc o.error (
          add_messages (observation_message tc (shown_observation tc o.observation o.error) ∷ [])
            (record st { ctx = (after_tool e tc o.observation o.error c o.world).0 }))

  run_calls-keeps :
      (step : ℕ) (text : String) (tcs : List ToolCall) (st : LoopState) (w : W)
      → Fresh P st w
      → OnTurn P (run_calls e step text tcs st w)
  unfolding run_calls
  run_calls-keeps step text [] st w f = next_on (f.0, refl)
  run_calls-keeps step text (tc ∷ tcs) st w f = OnTurn-if P o.paused (done _) _ (done_on p) (
      settle_call-keeps step (e.now w) tc o st (λ st' w'. run_calls e step text tcs st' w') (p, f.1)
        (λ st' w' f'. run_calls-keeps step text tcs st' w' f'))
    where
      o : ToolOutcome W
      o = execute_tool_with_guard e st step text tc tcs true w

      p : P o.world
      p = execute_tool-keeps e g P rules st step text tc tcs true w f.1 f.0

  start_calls-keeps :
      (step : ℕ) (text : String) (llm_calls : List LlmToolCall) (tcs : List ToolCall)
      (st : LoopState) (w : W)
      → Fresh P st w
      → OnTurn P (start_calls e step text llm_calls tcs st w)
  unfolding start_calls
  start_calls-keeps step text llm_calls [] st w f = done_on f.0
  start_calls-keeps step text llm_calls (tc ∷ tcs) st w f =
      run_calls-keeps step text (tc ∷ tcs) (with_text text llm_calls st) w
        (f.0, still (text_added st))
    where
      still :
          (b : Bool)
          → (if b
              then st
              else add_messages
                  (record {
                    role = "assistant";
                    content = text;
                    tool_call_id = "";
                    tool_calls = llm_calls;
                  }
                    ∷ [])
                  st).approved_pending_tool
            ≡ false
      still true = f.1
      still false = f.1

  dispatch-keeps :
      (r : AgentResponse) (text : String) (llm_calls : List LlmToolCall) (st : LoopState) (step : ℕ)
      (w : W)
      → Fresh P st w
      → OnTurn P (dispatch e r text llm_calls st step w)
  unfolding dispatch
  dispatch-keeps r text llm_calls st step w f =
      OnTurn-if P _ (take_plan r text st w) _ (unfold take_plan in next_on f) (
        OnTurn-if P _ (take_final e r text st step w) _
          (take_final-keeps e g P rules r text st step w f)
          (OnTurn-if P _ (take_calls e r text llm_calls st step w) (done _)
            (unfold take_calls in start_calls-keeps step text llm_calls (calls_of r) st w f)
            (done_on f.0)))

  turn_of-keeps : (step : ℕ) (a : Asked W) → OnAsked P a → OnTurn P (turn_of e step a)
  turn_of-keeps step (failed _ _ _) (failed_on p) = done_on p
  turn_of-keeps step (stop _ _) (stop_on f) = break_on f
  turn_of-keeps step (again _ _) (again_on f) = next_on f
  turn_of-keeps step (answer r text llm_calls st w) (answer_on f) =
      dispatch-keeps r text llm_calls st step w f

  iterate-keeps :
      (rounds step : ℕ) (st : LoopState) (w : W)
      → Fresh P st w
      → P (iterate e rounds step st w).world
  unfolding iterate
  iterate-keeps zero step st w f = force_conclusion-keeps e g P rules st w f.0
  iterate-keeps (suc rounds) step st w f =
      go (λ st' w' f'. iterate-keeps rounds (suc step) st' w' f') (iteration e step st w)
        (unfold iteration in
          turn_of-keeps step (ask e step st w) (ask-keeps e g P rules step st w f))
    where
      go :
          ((st' : LoopState) (w' : W)
            → Fresh P st' w'
            → P (iterate e rounds (suc step) st' w').world)
          → (t : Turn W) → OnTurn P t
          → P
              (elim t as (λ _. Outcome W) [
                | next st' w' ↦ iterate e rounds (suc step) st' w'
                | break st' w' ↦ force_conclusion e st' w'
                | done o ↦ o
              ]).world
      go rest (next st' w') (next_on f') = rest st' w' f'
      go rest (break st' w') (break_on f') = force_conclusion-keeps e g P rules st' w' f'.0
      go rest (done o) (done_on p) = p

  -- A run that does not resume an approved call keeps every predicate on worlds that the host's
  -- operations keep, where a tool counts only if the guard lets a call of it pass without approval:
  -- a tool that the guard always denies, or always wants approved, is never executed.
  pub run_loop-keeps :
      (st : LoopState) (w : W) → st.approved_pending_tool ≡ false → P w → P (run_loop e st w).world
  unfolding run_loop
  run_loop-keeps st w fresh p = iterate-keeps _ st.next_step st w (p, fresh)
