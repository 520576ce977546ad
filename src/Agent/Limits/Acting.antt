-- ===== src/Agent/Limits/Acting.antt =====
-- The `switch` counts at most one round more, and ends with no error of its own.
use mister_morph.Base.{
  ◌-◌, ℕ, suc, String, ◌≡◌, refl, inl, inr, Bool, true, false, Option, none, some, List, [], ◌∷◌,
  arith, if◌then◌else◌, Option-cases,
}
use mister_morph.Llm.{LlmToolCall}
use mister_morph.Agent.Types.{ToolCall, Final, Context, AgentResponse, record_step, final_payload}
use mister_morph.Agent.State.{LoopState, add_messages}
use mister_morph.Agent.Host.{Engine}
use mister_morph.Agent.Engine.ToolGuard.{ToolOutcome, execute_tool_with_guard}
use mister_morph.Agent.Engine.Force.{Outcome}
use mister_morph.Agent.Engine.Answer.{
  Turn, next, break, done, must_write, with_payload, take_final, complete_plan,
}
use mister_morph.Agent.Engine.Calls.{
  after_tool, stops_run, settle_call, run_calls, take_calls, with_text, calls_of, step_record,
  count_repeat, repeated, shown_observation, observation_message, text_added,
}
use mister_morph.Agent.Limits.Counts.{
  Counted, Counted-record_step, Counted-le, Counted-SameCounts, SameCounts-after_tool, no_error,
  Returned, force_conclusion-Returned,
}

pub data TurnWithin {W : Type 0} (max n : ℕ) : Turn W → Type 0 where
  next_in : {st : LoopState} {w : W} → Counted max n st.ctx → TurnWithin max n (next st w)
  break_in : {st : LoopState} {w : W} → Counted max n st.ctx → TurnWithin max n (break st w)
  done_in : {o : Outcome W} → Returned max (suc n) o → TurnWithin max n (done o)

ctx-count_repeat :
    {W : Type 0} (e : Engine W) (tc : ToolCall) (error : Option String) (st : LoopState)
    → (count_repeat e tc error st).ctx ≡ st.ctx
unfolding count_repeat
ctx-count_repeat e tc none st = ground arith
ctx-count_repeat e tc (some m) st = refl

TurnWithin-if :
    {W : Type 0} (max n : ℕ) (b : Bool) (x y : Turn W)
    → TurnWithin max n x
    → TurnWithin max n y
    → TurnWithin max n (if b then x else y)
TurnWithin-if max n true x y h k = h
TurnWithin-if max n false x y h k = k

module _ {W : Type 0} (e : Engine W) (max n : ℕ) where
  quiet :
      (c : Context)
      → Counted max n c
      → (f : Option Final) (w : W)
      → Returned max (suc n) (record { final = f; ctx = c; error = none; world = w })
  quiet c h f w = record {
    counted = Counted-le max n (suc n) c (omega arith) h;
    host_error = no_error;
  }

  pub take_final-Within :
      (r : AgentResponse) (text : String) (st : LoopState) (step : ℕ) (w : W)
      → Counted max n st.ctx
      → TurnWithin max n (take_final e r text st step w)
  unfolding take_final
  take_final-Within r text st step w h = payload (final_payload r)
    where
      st' : LoopState
      st' = record st { ctx = record st.ctx { raw_final_answer = r.raw_final_answer } }

      h' : Counted max n st'.ctx
      h' = record { limit = h.limit; rounds = h.rounds; calls = h.calls }

      payload : (o : Option Final) → TurnWithin max n (with_payload e text st' step o w)
      payload none = done_in (quiet st'.ctx h' none w)
      payload (some fp) =
          let st'' = record st' { ctx = complete_plan st'.ctx } in
          let h'' : Counted max n st''.ctx = record {
            limit = h.limit;
            rounds = h.rounds;
            calls = h.calls;
          } in
          elim (Option-cases (must_write e st'' w)) [
            | inl nothing ↦ rw (nothing, with_payload) (done_in (quiet st''.ctx h'' _ _))
            | inr (note, wanted) ↦ rw (wanted, with_payload) (next_in h'')
          ]

  settle_call-Within :
      (step started : ℕ) (tc : ToolCall) (o : ToolOutcome W) (st : LoopState)
      (continue : LoopState → W → Turn W)
      → Counted max n st.ctx
      → ((st' : LoopState) (w : W) → Counted max n st'.ctx → TurnWithin max n (continue st' w))
      → TurnWithin max n (settle_call e step started tc o st continue)
  unfolding settle_call
  settle_call-Within step started tc o st continue h k =
      TurnWithin-if max n (stops_run e tc o.error) (done _) _ (done_in (quiet _ h' _ _)) (
        TurnWithin-if max n (repeated o.error st'') (done _)
          (continue st'' (after_tool e tc o.observation o.error c o.world).1)
          (done_in (force_conclusion-Returned e max n _ _ h'')) (k st'' _ h''))
    where
      c : Context
      c = record_step (step_record step tc o.observation o.error (e.now o.world - started)) st.ctx

      h' : Counted max n (after_tool e tc o.observation o.error c o.world).0
      h' =
          Counted-SameCounts max n _ c (SameCounts-after_tool e tc o.observation o.error c o.world)
            (Counted-record_step max n
              (step_record step tc o.observation o.error (e.now o.world - started)) st.ctx h)

      st'' : LoopState
      st'' = count_repeat e tc o.error (
          add_messages (observation_message tc (shown_observation tc o.observation o.error) ∷ [])
            (record st { ctx = (after_tool e tc o.observation o.error c o.world).0 }))

      h'' : Counted max n st''.ctx
      h'' = rw (ctx-count_repeat e tc o.error) h'

  run_calls-Within :
      (step : ℕ) (text : String) (tcs : List ToolCall) (st : LoopState) (w : W)
      → Counted max n st.ctx
      → TurnWithin max n (run_calls e step text tcs st w)
  unfolding run_calls
  run_calls-Within step text [] st w h = next_in h
  run_calls-Within step text (tc ∷ tcs) st w h =
      let o = execute_tool_with_guard e st step text tc tcs true w in
      TurnWithin-if max n o.paused (done _) _ (done_in (quiet st.ctx h o.paused_final o.world)) (
        settle_call-Within step (e.now w) tc o st (λ st' w'. run_calls e step text tcs st' w') h
          (λ st' w' h'. run_calls-Within step text tcs st' w' h'))

  pub take_calls-Within :
      (r : AgentResponse) (text : String) (llm_calls : List LlmToolCall) (st : LoopState) (step : ℕ)
      (w : W) (tc : ToolCall) (tcs : List ToolCall)
      → r.tool_calls ≡ tc ∷ tcs
      → Counted max n st.ctx
      → TurnWithin max n (take_calls e r text llm_calls st step w)
  unfolding take_calls
  take_calls-Within r text llm_calls st step w tc tcs q h =
      rw (q, calls_of)
        (run_calls-Within step text (tc ∷ tcs) (with_text text llm_calls st) w
          (still (text_added st)))
    where
      still :
          (b : Bool)
          → Counted max n
              (if b
                then st
                else add_messages
                    (record {
                      role = "assistant";
                      content = text;
                      tool_call_id = "";
                      tool_calls = llm_calls;
                    }
                      ∷ [])
                    st).ctx
      still true = h
      still false = h
