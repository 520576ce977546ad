-- ===== src/Agent/Limits/Rounds.antt =====
-- How often a run calls the model: at most once in each iteration, and once at its end.
use mister_morph.Base.{
  ℕ, zero, suc, ◌+◌, ◌-◌, ◌≤◌, String, refl, inl, inr, Bool, true, false, Option, none, some, List,
  [], ◌∷◌, arith, if◌then◌else◌, Option-cases,
}
use mister_morph.Llm.{LlmToolCall}
use mister_morph.Agent.Types.{ToolCall, Context, AgentResponse, Final, record_step, final_payload}
use mister_morph.Agent.State.{LoopState, add_messages}
use mister_morph.Agent.Host.{Engine}
use mister_morph.Agent.Engine.ToolGuard.{ToolOutcome, active_guard, execute_tool_with_guard}
use mister_morph.Agent.Engine.Force.{with_plan, Outcome, force_conclusion}
use mister_morph.Agent.Engine.Ask.{Asked, failed, stop, again, answer, ask}
use mister_morph.Agent.Engine.Answer.{
  publish, Turn, next, break, done, must_write, with_payload, take_final, take_plan, complete_plan,
  finished,
}
use mister_morph.Agent.Engine.Calls.{
  calls_of, take_calls, with_text, start_calls, after_tool, stops_run, settle_call, run_calls,
  step_record, count_repeat, repeated, shown_observation, observation_message,
}
use mister_morph.Agent.Engine.Loop.{iteration, turn_of, run_loop, iterate, dispatch}
use mister_morph.Agent.Limits.Asks.{asked_world, ask-calls, force_conclusion-calls}
use mister_morph.Agent.Limits.Tally.{Tally, execute_tool-calls, publish-calls, after_tool-calls}

-- After a turn the model was called at most `n` times, or once more if the run is over.
data TurnCalls {W : Type 0} (calls : W → ℕ) (n : ℕ) : Turn W → Type 0 where
  next_at : {st : LoopState} {w : W} → calls w ≤ n → TurnCalls calls n (next st w)
  break_at : {st : LoopState} {w : W} → calls w ≤ n → TurnCalls calls n (break st w)
  done_at : {o : Outcome W} → calls o.world ≤ suc n → TurnCalls calls n (done o)

TurnCalls-if :
    {W : Type 0} (calls : W → ℕ) (n : ℕ) (b : Bool) (x y : Turn W)
    → TurnCalls calls n x
    → TurnCalls calls n y
    → TurnCalls calls n (if b then x else y)
TurnCalls-if calls n true x y h k = h
TurnCalls-if calls n false x y h k = k

module _ {W : Type 0} (e : Engine W) (calls : W → ℕ) (tally : Tally e calls) where
  take_final-calls :
      (n : ℕ) (r : AgentResponse) (text : String) (st : LoopState) (step : ℕ) (w : W)
      → calls w ≤ n
      → TurnCalls calls n (take_final e r text st step w)
  unfolding take_final
  take_final-calls n r text st step w h = payload (final_payload r)
    where
      st' : LoopState
      st' = record st { ctx = record st.ctx { raw_final_answer = r.raw_final_answer } }

      last : calls w ≤ suc n
      last = omega (arith, h)

      published :
          (st'' : LoopState) (f : Final)
          → calls (publish e (active_guard e) st'' step f w).1 ≤ suc n
      published st'' f =
          omega (arith, h, publish-calls e calls tally (active_guard e) st'' step f w refl)

      payload : (o : Option Final) → TurnCalls calls n (with_payload e text st' step o w)
      payload none = unfold with_payload in done_at last
      payload (some fp) =
          let st'' = record st' { ctx = complete_plan st'.ctx } in
          elim (Option-cases (must_write e st'' w)) [
            | inl nothing ↦
                rw (nothing, with_payload)
                  (unfold finished in done_at (published st'' (with_plan st''.ctx fp)))
            | inr (note, wanted) ↦ rw (wanted, with_payload) (next_at h)
          ]

  settle_call-calls :
      (n step started : ℕ) (tc : ToolCall) (o : ToolOutcome W) (st : LoopState)
      (continue : LoopState → W → Turn W)
      → calls o.world ≤ n
      → ((st' : LoopState) (w : W) → calls w ≤ n → TurnCalls calls n (continue st' w))
      → TurnCalls calls n (settle_call e step started tc o st continue)
  unfolding settle_call
  settle_call-calls n step started tc o st continue h k =
      TurnCalls-if calls n (stops_run e tc o.error) (done _) _ (done_at (omega (arith, p))) (
        TurnCalls-if calls n (repeated o.error st'') (done _)
          (continue st'' (after_tool e tc o.observation o.error c o.world).1)
          (done_at (
            omega (
              arith,
              p,
              force_conclusion-calls e calls tally _
                  (after_tool e tc o.observation o.error c o.world).1,
            )))
          (k st'' _ p))
    where
      c : Context
      c = record_step (step_record step tc o.observation o.error (e.now o.world - started)) st.ctx

      p : calls (after_tool e tc o.observation o.error c o.world).1 ≤ n
      p = omega (arith, h, after_tool-calls e calls tally tc o.observation o.error c o.world)

      st'' : LoopState
      st'' = count_repeat e tc o.error (
          add_messages (observation_message tc (shown_observation tc o.observation o.error) ∷ [])
            (record st { ctx = (after_tool e tc o.observation o.error c o.world).0 }))

  run_calls-calls :
      (n step : ℕ) (text : String) (tcs : List ToolCall) (st : LoopState) (w : W)
      → calls w ≤ n
      → TurnCalls calls n (run_calls e step text tcs st w)
  unfolding run_calls
  run_calls-calls n step text [] st w h = next_at h
  run_calls-calls n step text (tc ∷ tcs) st w h =
      TurnCalls-if calls n o.paused (done _) _ (done_at (omega (arith, p))) (
        settle_call-calls n step (e.now w) tc o st (λ st' w'. run_calls e step text tcs st' w') p
          (λ st' w' h'. run_calls-calls n step text tcs st' w' h'))
    where
      o : ToolOutcome W
      o = execute_tool_with_guard e st step text tc tcs true w

      p : calls o.world ≤ n
      p = omega (arith, h, execute_tool-calls e calls tally st step text tc tcs true w)

  start_calls-calls :
      (n step : ℕ) (text : String) (llm_calls : List LlmToolCall) (tcs : List ToolCall)
      (st : LoopState) (w : W)
      → calls w ≤ n
      → TurnCalls calls n (start_calls e step text llm_calls tcs st w)
  unfolding start_calls
  start_calls-calls n step text llm_calls [] st w h = done_at (omega arith)
  start_calls-calls n step text llm_calls (tc ∷ tcs) st w h =
      run_calls-calls n step text (tc ∷ tcs) (with_text text llm_calls st) w h

  turn_of-calls :
      (n step : ℕ) (a : Asked W) → calls (asked_world a) ≤ n → TurnCalls calls n (turn_of e step a)
  turn_of-calls n step (failed _ _ _) h = done_at (omega arith)
  turn_of-calls n step (stop _ _) h = break_at h
  turn_of-calls n step (again _ _) h = next_at h
  turn_of-calls n step (answer r text llm_calls st w) h =
      unfold dispatch in
      TurnCalls-if calls n _ (take_plan r text st w) _ (unfold take_plan in next_at h) (
        TurnCalls-if calls n _ (take_final e r text st step w) _
          (take_final-calls n r text st step w h)
          (TurnCalls-if calls n _ (take_calls e r text llm_calls st step w) (done _)
            (unfold take_calls in start_calls-calls n step text llm_calls (calls_of r) st w h)
            (done_at (omega arith))))

  iterate-calls :
      (rounds step : ℕ) (st : LoopState) (w : W)
      → calls (iterate e rounds step st w).world ≤ suc (rounds + calls w)
  unfolding iterate
  iterate-calls zero step st w = omega (arith, force_conclusion-calls e calls tally st w)
  iterate-calls (suc rounds) step st w =
      go (λ st' w'. iterate-calls rounds (suc step) st' w') (iteration e step st w)
        (unfold iteration in
          turn_of-calls (suc (calls w)) step (ask e step st w) (ask-calls e calls tally step st w))
    where
      go :
          ((st' : LoopState) (w' : W)
            → calls (iterate e rounds (suc step) st' w').world ≤ suc (rounds + calls w'))
          → (t : Turn W) → TurnCalls calls (suc (calls w)) t
          → calls
              (elim t as (λ _. Outcome W) [
                | next st' w' ↦ iterate e rounds (suc step) st' w'
                | break st' w' ↦ force_conclusion e st' w'
                | done o ↦ o
              ]).world
            ≤ suc (suc rounds + calls w)
      go rest (next st' w') (next_at h) = omega (arith, h, rest st' w')
      go rest (break st' w') (break_at h) =
          omega (arith, h, force_conclusion-calls e calls tally st' w')
      go rest (done o) (done_at h) = omega (arith, h)

  -- A run calls the model at most once for each step up to the limit, and once more.
  pub run_loop-calls :
      (st : LoopState) (w : W)
      → calls (run_loop e st w).world ≤ suc (st.ctx.max_steps - st.next_step + calls w)
  unfolding run_loop
  run_loop-calls st w = iterate-calls (st.ctx.max_steps - st.next_step) st.next_step st w
