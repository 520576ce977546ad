-- ===== src/Agent/Limits/Asks.antt =====
-- The first half of an iteration calls the model at most once, and so does forceConclusion.
use mister_morph.Base.{
  ℕ, suc, ◌≤◌, String, ◌≡◌, refl, ◌∙◌, inl, inr, Bool, true, false, Option, none, some, List, [],
  ◌∷◌, All, arith, if◌then◌else◌, Option-cases,
}
use mister_morph.Base.Result.{Except, ok, err}
use mister_morph.Llm.{LlmToolCall, LlmResult, Message}
use mister_morph.Agent.Types.{
  no_response, type_tool_call, ToolCall, Context, AgentResponse, Failure, add_usage,
}
use mister_morph.Agent.Parser.{parse_response}
use mister_morph.Agent.State.{PendingTool, LoopState}
use mister_morph.Agent.Host.{Engine, Hook}
use mister_morph.Agent.Engine.Force.{concluded, after_last_chat, force_conclusion}
use mister_morph.Agent.Engine.Ask.{
  Asked, failed, stop, again, answer, run_hooks, to_agent_tool_calls, plan_first, not_parsed,
  parsed, calls_first, after_chat, ask_model, after_hooks, ask, pending_answer,
}
use mister_morph.Agent.Limits.Tally.{Tally}

abbrev pub asked_world : {W : Type 0} → Asked W → W
asked_world (failed f st w) = w
asked_world (stop st w) = w
asked_world (again st w) = w
asked_world (answer r text calls st w) = w

unfoldable EndsIn : {W : Type 0} → W → Asked W → Type 0
EndsIn w a = asked_world a ≡ w

module _ {W : Type 0} (e : Engine W) where
  EndsIn-if :
      (b : Bool) (x y : Asked W) (w : W) → EndsIn w x → EndsIn w y → EndsIn w (if b then x else y)
  EndsIn-if true x y w h k = h
  EndsIn-if false x y w h k = k

  again-EndsIn : (st : LoopState) (w : W) → EndsIn w (again st w)
  unfolding EndsIn
  again-EndsIn st w = refl

  stop-EndsIn : (st : LoopState) (w : W) → EndsIn w (stop st w)
  unfolding EndsIn
  stop-EndsIn st w = refl

  answer-EndsIn :
      (r : AgentResponse) (text : String) (calls : List LlmToolCall) (st : LoopState) (w : W)
      → EndsIn w (answer r text calls st w)
  unfolding EndsIn
  answer-EndsIn r text calls st w = refl

  plan_first-EndsIn :
      (r : AgentResponse) (result : LlmResult) (st : LoopState) (w : W)
      → EndsIn w (plan_first e r result st w)
  unfolding plan_first
  plan_first-EndsIn r result st w =
      EndsIn-if _ _ _ w (again-EndsIn _ w) (answer-EndsIn r result.text result.tool_calls st w)

  not_parsed-EndsIn :
      (result : LlmResult) (st : LoopState) (w : W) → EndsIn w (not_parsed e result st w)
  unfolding not_parsed
  not_parsed-EndsIn result st w = EndsIn-if _ _ _ w (stop-EndsIn _ w) (again-EndsIn _ w)

  parsed-EndsIn : (result : LlmResult) (st : LoopState) (w : W) → EndsIn w (parsed e result st w)
  unfolding parsed
  parsed-EndsIn result st w = pick (parse_response e.decoder result)
    where
      pick :
          (x : Except Failure AgentResponse)
          → EndsIn w (elim x as (λ _. Asked W) [
            | err _ ↦ not_parsed e result st w
            | ok r ↦ plan_first e r result (record st { parse_failures = 0 }) w
          ])
      pick (err _) = not_parsed-EndsIn result st w
      pick (ok r) = plan_first-EndsIn r result (record st { parse_failures = 0 }) w

  calls_first-EndsIn :
      (tcs : List ToolCall) (result : LlmResult) (st : LoopState) (w : W)
      → EndsIn w (calls_first e tcs result st w)
  unfolding calls_first
  calls_first-EndsIn [] result st w = parsed-EndsIn result st w
  calls_first-EndsIn (c ∷ cs) result st w =
      plan_first-EndsIn (record no_response { type = type_tool_call; tool_calls = c ∷ cs }) result
        (record st { parse_failures = 0 }) w

  after_chat-EndsIn :
      (step : ℕ) (st : LoopState) (x : Except String LlmResult × W)
      → EndsIn x.1 (after_chat e step st x)
  unfolding after_chat
  after_chat-EndsIn step st (err m, w) = unfold EndsIn in refl
  after_chat-EndsIn step st (ok result, w) = EndsIn-if _ _ _ w (stop-EndsIn _ w) (
      calls_first-EndsIn (to_agent_tool_calls result.tool_calls) result
        (record st { ctx = add_usage result.usage st.ctx }) w)

  world-concluded : (c : Context) (r : AgentResponse) (w : W) → (concluded e c r w).world ≡ w
  unfolding concluded
  world-concluded c r w = ground arith

  world-after_last_chat :
      (c : Context) (x : Except String LlmResult × W) → (after_last_chat e c x).world ≡ x.1
  unfolding after_last_chat
  world-after_last_chat c (err m, w) = refl
  world-after_last_chat c (ok result, w) =
      ground (arith, world-concluded (add_usage result.usage c))

module _ {W : Type 0} (e : Engine W) (calls : W → ℕ) (tally : Tally e calls) where
  pub force_conclusion-calls :
      (st : LoopState) (w : W) → calls (force_conclusion e st w).world ≡ suc (calls w)
  unfolding force_conclusion
  force_conclusion-calls st w = rw (world-after_last_chat e) (tally.chat _ w)

  run_hooks-calls :
      (hs : List (Hook W)) (step : ℕ) (st : LoopState) (w : W)
      → All
          (λ h.
            (n : ℕ) (c : Context) (ms : List Message) (v : W) → calls (h n c ms v).world ≡ calls v)
          hs
      → calls (run_hooks e hs step st w).1 ≡ calls w
  unfolding run_hooks
  run_hooks-calls [] step st w h = refl
  run_hooks-calls (h ∷ hs) step st w (k, ks) =
      elim (Option-cases (h step st.ctx st.messages w).error) [
        | inl fine ↦
            rw (fine, run_hooks) (run_hooks-calls hs step _ _ ks ∙ k step st.ctx st.messages w)
        | inr (m, broken) ↦ rw (broken, run_hooks) (k step st.ctx st.messages w)
      ]

  after_hooks-calls :
      (step : ℕ) (x : Except Failure LoopState × W) (st : LoopState)
      → calls (asked_world (after_hooks e step x st)) ≤ suc (calls x.1)
  unfolding after_hooks
  after_hooks-calls step (err m, w) st = omega arith
  after_hooks-calls step (ok st', w) st = pick st'.pending_tool
    where
      chatted :
          (x : Except String LlmResult × W)
          → calls x.1 ≡ suc (calls w)
          → calls (asked_world (after_chat e step st' x)) ≤ suc (calls w)
      chatted x h =
          let same : asked_world (after_chat e step st' x) ≡ x.1 =
            unfold EndsIn in after_chat-EndsIn e step st' x in
          rw same (omega (arith, h))

      pick :
          (o : Option PendingTool)
          → calls (
              asked_world (elim o as (λ _. Asked W) [
                | none ↦ ask_model e step st' w
                | some p ↦ pending_answer e p st' w
              ]))
            ≤ suc (calls w)
      pick none = unfold ask_model in chatted _ (tally.chat _ w)
      pick (some p) = unfold pending_answer in omega arith

  pub ask-calls :
      (step : ℕ) (st : LoopState) (w : W) → calls (asked_world (ask e step st w)) ≤ suc (calls w)
  unfolding ask
  ask-calls step st w = elim (Option-cases (e.cancelled w)) [
    | inl on ↦
        rw (on, ask)
          (omega (
            arith,
            after_hooks-calls step (run_hooks e e.hooks step st w) st,
            run_hooks-calls e.hooks step st w tally.hooks,
          ))
    | inr (m, off) ↦ rw (off, ask) (omega arith)
  ]
