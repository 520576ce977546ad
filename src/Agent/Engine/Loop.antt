-- ===== src/Agent/Engine/Loop.antt =====
-- runLoop of agent/engine_loop.go.
use mister_morph.Base.{ℕ, zero, suc, ◌-◌, String, ◌||◌, none, some, List, ◌==◌, if◌then◌else◌}
use mister_morph.Agent.Types.{
  AgentResponse, Failure, parse_failure, type_tool_call, type_plan, type_final, type_final_answer,
}
use mister_morph.Llm.{LlmToolCall}
use mister_morph.Agent.State.{LoopState}
use mister_morph.Agent.Host.{Engine}
use mister_morph.Agent.Engine.Force.{Outcome, force_conclusion}
use mister_morph.Agent.Engine.Ask.{Asked, failed, stop, again, answer, ask}
use mister_morph.Agent.Engine.Answer.{Turn, next, break, done, take_plan, take_final}
use mister_morph.Agent.Engine.Calls.{take_calls}

-- A return with an error.
abbrev pub fails : {W : Type 0} → Failure → LoopState → W → Outcome W
fails f st w = record { final = none; ctx = st.ctx; error = some f; world = w }

module _ {W : Type 0} (e : Engine W) where
  -- The `switch` on the response's type.
  unfoldable pub dispatch : AgentResponse → String → List LlmToolCall → LoopState → ℕ → W → Turn W
  dispatch r text llm_calls st step w =
      if r.type == type_plan
      then take_plan r text st w
      else if r.type == type_final || r.type == type_final_answer
      then take_final e r text st step w
      else if r.type == type_tool_call
      then take_calls e r text llm_calls st step w
      else done (fails parse_failure st w)

  abbrev pub turn_of : ℕ → Asked W → Turn W
  turn_of step (failed f st w) = done (fails f st w)
  turn_of step (stop st w) = break st w
  turn_of step (again st w) = next st w
  turn_of step (answer r text llm_calls st w) = dispatch r text llm_calls st step w

  -- One iteration.
  unfoldable pub iteration : ℕ → LoopState → W → Turn W
  unfolding dispatch
  iteration step st w = turn_of step (ask e step st w)

  -- The iterations from `step` on, `rounds` of them at most.
  unfoldable pub iterate : ℕ → ℕ → LoopState → W → Outcome W
  iterate zero step st w = force_conclusion e st w
  iterate (suc rounds) step st w = elim (iteration step st w) [
    | next st' w' ↦ iterate rounds (suc step) st' w'
    | break st' w' ↦ force_conclusion e st' w'
    | done o ↦ o
  ]

  -- runLoop: `for step := st.nextStep; step < st.agentCtx.MaxSteps; step++`. No iteration changes
  -- MaxSteps, so the number of rounds is known at the start.
  unfoldable pub run_loop : LoopState → W → Outcome W
  unfolding iterate
  run_loop st w = iterate (st.ctx.max_steps - st.next_step) st.next_step st w
