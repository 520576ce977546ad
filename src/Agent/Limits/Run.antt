-- ===== src/Agent/Limits/Run.antt =====
-- A whole run: how often the model is called, and which errors it can return.
use mister_morph.Base.{
  ℕ, zero, suc, ◌+◌, ◌-◌, ◌≤◌, String, ◌≡◌, refl, inl, inr, Bool, true, false, ◌||◌, List, ◌∷◌,
  arith, ◌==◌, eq_iff, if◌then◌else◌,
}
use mister_morph.Llm.{LlmToolCall}
use mister_morph.Agent.Types.{
  ToolCall, AgentResponse, type_plan, type_final, type_final_answer, type_tool_call,
}
use mister_morph.Agent.State.{LoopState}
use mister_morph.Agent.Parser.Accepted.{plan, final}
use mister_morph.Agent.Host.{Engine}
use mister_morph.Agent.Engine.Force.{Outcome, force_conclusion}
use mister_morph.Agent.Engine.Ask.{Asked, ask, failed, stop, again, answer}
use mister_morph.Agent.Engine.Answer.{Turn, next, break, done, take_plan, take_final}
use mister_morph.Agent.Engine.Calls.{take_calls}
use mister_morph.Agent.Engine.Loop.{dispatch, turn_of, iteration, iterate, run_loop}
use mister_morph.Agent.Limits.Counts.{Counted, Counted-le, Returned, force_conclusion-Returned}
use mister_morph.Agent.Limits.Tally.{Tally}
use mister_morph.Agent.Limits.Rounds.{run_loop-calls}
use mister_morph.Agent.Limits.Asking.{
  IsTaken, parsed_text, native_calls, Within, failed_in, stop_in, again_in, answer_in, ask-Within,
}
use mister_morph.Agent.Limits.Acting.{
  TurnWithin, next_in, break_in, done_in, take_final-Within, take_calls-Within,
}

TurnWithin-split :
    {W : Type 0} (max n : ℕ) (b : Bool) (x y : Turn W)
    → (b ≡ true → TurnWithin max n x)
    → (b ≡ false → TurnWithin max n y)
    → TurnWithin max n (if b then x else y)
TurnWithin-split max n true x y h k = h refl
TurnWithin-split max n false x y h k = k refl

-- A response that was taken has one of the four types.
type_of_taken :
    (r : AgentResponse)
    → IsTaken r
    → (r.type == type_plan) ≡ false
    → (r.type == type_final || r.type == type_final_answer) ≡ false
    → (tc : ToolCall) × (tcs : List ToolCall) × (r.type ≡ type_tool_call)
      × (r.tool_calls ≡ tc ∷ tcs)
type_of_taken r (parsed_text (plan p t q)) h k = absurd (ground (arith, eq_iff r.type type_plan))
type_of_taken r (parsed_text (final f (inl t) q)) h k =
    absurd (ground (arith, eq_iff r.type type_final))
type_of_taken r (parsed_text (final f (inr t) q)) h k =
    absurd (ground (arith, eq_iff r.type type_final_answer))
type_of_taken r (native_calls tc tcs t q) h k = (tc, tcs, t, q)

module _ {W : Type 0} (e : Engine W) (max n : ℕ) where
  dispatch-Within :
      (r : AgentResponse) (text : String) (llm_calls : List LlmToolCall) (st : LoopState) (step : ℕ)
      (w : W)
      → IsTaken r
      → Counted max n st.ctx
      → TurnWithin max n (dispatch e r text llm_calls st step w)
  unfolding dispatch
  dispatch-Within r text llm_calls st step w t h =
      TurnWithin-split max n (r.type == type_plan) (take_plan r text st w) _
        (λ _.
          unfold take_plan in
          next_in (record { limit = h.limit; rounds = h.rounds; calls = h.calls }))
        (λ not_plan.
          TurnWithin-split max n (r.type == type_final || r.type == type_final_answer)
            (take_final e r text st step w) _ (λ _. take_final-Within e max n r text st step w h)
            (λ not_final.
              let (tc, tcs, is_calls, q) = type_of_taken r t not_plan not_final in
              TurnWithin-split max n (r.type == type_tool_call)
                (take_calls e r text llm_calls st step w) (done _)
                (λ _. take_calls-Within e max n r text llm_calls st step w tc tcs q h)
                (λ no. absurd (ground (arith, eq_iff r.type type_tool_call)))))

  turn_of-Within : (step : ℕ) (a : Asked W) → Within max n a → TurnWithin max n (turn_of e step a)
  turn_of-Within step (failed f st w) (failed_in k h) =
      done_in (record { counted = Counted-le max n (suc n) st.ctx (omega arith) h; host_error = k })
  turn_of-Within step (stop _ _) (stop_in h) = break_in h
  turn_of-Within step (again _ _) (again_in h) = next_in h
  turn_of-Within step (answer r text llm_calls st w) (answer_in t h) =
      dispatch-Within r text llm_calls st step w t h

module _ {W : Type 0} (e : Engine W) (max : ℕ) where
  Returned-le : (n m : ℕ) (o : Outcome W) → n ≤ m → Returned max n o → Returned max m o
  Returned-le n m o le h = record {
    counted = Counted-le max n m o.ctx le h.counted;
    host_error = h.host_error;
  }

  iterate-Returned :
      (rounds step n : ℕ) (st : LoopState) (w : W)
      → Counted max n st.ctx
      → Returned max (suc (rounds + n)) (iterate e rounds step st w)
  unfolding iterate
  iterate-Returned zero step n st w h =
      Returned-le (suc n) _ _ (omega arith) (force_conclusion-Returned e max n st w h)
  iterate-Returned (suc rounds) step n st w h =
      go (λ st' w' h'. iterate-Returned rounds (suc step) (suc n) st' w' h') (iteration e step st w)
        (unfold iteration in
          turn_of-Within e max (suc n) step (ask e step st w) (ask-Within e max n step st w h))
    where
      go :
          ((st' : LoopState) (w' : W)
            → Counted max (suc n) st'.ctx
            → Returned max (suc (rounds + suc n)) (iterate e rounds (suc step) st' w'))
          → (t : Turn W) → TurnWithin max (suc n) t
          → Returned max (suc (suc rounds + n)) (elim t as (λ _. Outcome W) [
            | next st' w' ↦ iterate e rounds (suc step) st' w'
            | break st' w' ↦ force_conclusion e st' w'
            | done o ↦ o
          ])
      go rest (next st' w') (next_in h') =
          Returned-le (suc (rounds + suc n)) _ _ (omega arith) (rest st' w' h')
      go rest (break st' w') (break_in h') =
          Returned-le (suc (suc n)) _ _ (omega arith)
            (force_conclusion-Returned e max (suc n) st' w' h')
      go rest (done o) (done_in k) = Returned-le (suc (suc n)) _ o (omega arith) k

  -- Where the world counts the calls of the model, and the recorded steps of the context are counted, a
  -- run calls the model at most once for each step up to the limit and once more, and counts no more
  -- rounds than that; it keeps the limit, records every counted tool call, and ends with no error but a
  -- cancellation, a hook's, or the model's.
  pub run_loop-Returned :
      (calls : W → ℕ) (n : ℕ) (st : LoopState) (w : W)
      → Tally e calls
      → Counted max n st.ctx
      → (calls (run_loop e st w).world ≤ suc (st.ctx.max_steps - st.next_step + calls w))
        × Returned max (suc (st.ctx.max_steps - st.next_step + n)) (run_loop e st w)
  run_loop-Returned calls n st w tally h = (
    run_loop-calls e calls tally st w,
    unfold run_loop in iterate-Returned (st.ctx.max_steps - st.next_step) st.next_step n st w h,
  )
