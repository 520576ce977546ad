-- ===== src/Agent/Safety/Turns.antt =====
-- The parts of an iteration keep the predicate, and the flag of an approved call stays down.
use mister_morph.Agent.Parser.{parse_response}
use mister_morph.Agent.Types.{
  no_response, type_tool_call, ToolCall, Context, AgentResponse, Failure, add_usage,
}
use mister_morph.Base.{
  none, some, Bool, true, false, if◌then◌else◌, Option, ℕ, String, ◌≡◌, refl, inl, inr, List, [],
  ◌∷◌, arith, Option-cases, All,
}
use mister_morph.Base.Result.{Except, ok, err}
use mister_morph.Llm.{LlmToolCall, LlmResult, Message}
use mister_morph.Agent.State.{PendingTool, LoopState}
use mister_morph.Agent.Host.{Engine, GuardOps, Hook}
use mister_morph.Agent.Engine.Force.{Outcome, concluded, after_last_chat, force_conclusion}
use mister_morph.Agent.Engine.Ask.{
  Asked, failed, stop, again, answer, run_hooks, to_agent_tool_calls, plan_first, not_parsed,
  parsed, calls_first, after_chat, ask_model, after_hooks, ask, pending_answer,
}
use mister_morph.Agent.Engine.Answer.{Turn, next, break, done}
use mister_morph.Agent.Safety.Rules.{Rules}

-- The world is as `P` says, and the flag is down.
abbrev pub Fresh : {W : Type 0} → (W → Type 0) → LoopState → W → Type 0
Fresh P st w = P w × (st.approved_pending_tool ≡ false)

pub data OnAsked {W : Type 0} (P : W → Type 0) : Asked W → Type 0 where
  failed_on : {f : Failure} {st : LoopState} {w : W} → P w → OnAsked P (failed f st w)
  stop_on : {st : LoopState} {w : W} → Fresh P st w → OnAsked P (stop st w)
  again_on : {st : LoopState} {w : W} → Fresh P st w → OnAsked P (again st w)
  answer_on :
      {r : AgentResponse} {text : String} {calls : List LlmToolCall} {st : LoopState} {w : W}
      → Fresh P st w
      → OnAsked P (answer r text calls st w)

pub data OnTurn {W : Type 0} (P : W → Type 0) : Turn W → Type 0 where
  next_on : {st : LoopState} {w : W} → Fresh P st w → OnTurn P (next st w)
  break_on : {st : LoopState} {w : W} → Fresh P st w → OnTurn P (break st w)
  done_on : {o : Outcome W} → P o.world → OnTurn P (done o)

module _ {W : Type 0} (e : Engine W) where
  world-concluded : (c : Context) (r : AgentResponse) (w : W) → (concluded e c r w).world ≡ w
  unfolding concluded
  world-concluded c r w = ground arith

  world-after_last_chat :
      (c : Context) (x : Except String LlmResult × W) → (after_last_chat e c x).world ≡ x.1
  unfolding after_last_chat
  world-after_last_chat c (err m, w) = refl
  world-after_last_chat c (ok result, w) =
      ground (arith, world-concluded (add_usage result.usage c))

module _ {W : Type 0} (e : Engine W) (g : GuardOps W) (P : W → Type 0) (rules : Rules e g P) where
  pub force_conclusion-keeps : (st : LoopState) (w : W) → P w → P (force_conclusion e st w).world
  unfolding force_conclusion
  force_conclusion-keeps st w p = rw world-after_last_chat (rules.chat _ w p)

  abbrev pub OnHooks : Except Failure LoopState × W → Type 0
  OnHooks (err f, w) = P w
  OnHooks (ok st, w) = Fresh P st w

  run_hooks-keeps :
      (hs : List (Hook W)) (step : ℕ) (st : LoopState) (w : W)
      → All (λ h. (n : ℕ) (c : Context) (ms : List Message) (v : W) → P v → P (h n c ms v).world) hs
      → Fresh P st w
      → OnHooks (run_hooks e hs step st w)
  unfolding run_hooks
  run_hooks-keeps [] step st w h f = f
  run_hooks-keeps (h ∷ hs) step st w (k, ks) f =
      elim (Option-cases (h step st.ctx st.messages w).error) [
        | inl fine ↦ rw fine (run_hooks-keeps hs step _ _ ks (k step st.ctx st.messages w f.0, f.1))
        | inr (m, broken) ↦ rw broken (k step st.ctx st.messages w f.0)
      ]

  OnAsked-if :
      (b : Bool) (x y : Asked W) → OnAsked P x → OnAsked P y → OnAsked P (if b then x else y)
  OnAsked-if true x y h k = h
  OnAsked-if false x y h k = k

  plan_first-keeps :
      (r : AgentResponse) (result : LlmResult) (st : LoopState) (w : W)
      → Fresh P st w
      → OnAsked P (plan_first e r result st w)
  unfolding plan_first
  plan_first-keeps r result st w f = OnAsked-if _ _ _ (again_on f) (answer_on f)

  not_parsed-keeps :
      (result : LlmResult) (st : LoopState) (w : W)
      → Fresh P st w
      → OnAsked P (not_parsed e result st w)
  unfolding not_parsed
  not_parsed-keeps result st w f = OnAsked-if _ _ _ (stop_on f) (again_on f)

  parsed-keeps :
      (result : LlmResult) (st : LoopState) (w : W)
      → Fresh P st w
      → OnAsked P (parsed e result st w)
  unfolding parsed
  parsed-keeps result st w f = pick (parse_response e.decoder result)
    where
      pick :
          (x : Except Failure AgentResponse)
          → OnAsked P (elim x as (λ _. Asked W) [
            | err _ ↦ not_parsed e result st w
            | ok r ↦ plan_first e r result (record st { parse_failures = 0 }) w
          ])
      pick (err _) = not_parsed-keeps result st w f
      pick (ok r) = plan_first-keeps r result (record st { parse_failures = 0 }) w f

  calls_first-keeps :
      (tcs : List ToolCall) (result : LlmResult) (st : LoopState) (w : W)
      → Fresh P st w
      → OnAsked P (calls_first e tcs result st w)
  unfolding calls_first
  calls_first-keeps [] result st w f = parsed-keeps result st w f
  calls_first-keeps (c ∷ cs) result st w f =
      plan_first-keeps (record no_response { type = type_tool_call; tool_calls = c ∷ cs }) result
        (record st { parse_failures = 0 }) w f

  after_chat-keeps :
      (step : ℕ) (st : LoopState) (x : Except String LlmResult × W)
      → Fresh P st x.1
      → OnAsked P (after_chat e step st x)
  unfolding after_chat
  after_chat-keeps step st (err m, w) f = failed_on f.0
  after_chat-keeps step st (ok result, w) f = OnAsked-if _ _ _ (stop_on f) (
      calls_first-keeps (to_agent_tool_calls result.tool_calls) result
        (record st { ctx = add_usage result.usage st.ctx }) w f)

  after_hooks-keeps :
      (step : ℕ) (x : Except Failure LoopState × W) (st : LoopState)
      → OnHooks x
      → OnAsked P (after_hooks e step x st)
  unfolding after_hooks
  after_hooks-keeps step (err m, w) st f = failed_on f
  after_hooks-keeps step (ok st', w) st f = pick st'.pending_tool
    where
      pick :
          (o : Option PendingTool)
          → OnAsked P (elim o as (λ _. Asked W) [
            | none ↦ ask_model e step st' w
            | some p ↦ pending_answer e p st' w
          ])
      pick none = unfold ask_model in after_chat-keeps step st' _ (rules.chat _ w f.0, f.1)
      pick (some p) = unfold pending_answer in answer_on f

  pub ask-keeps : (step : ℕ) (st : LoopState) (w : W) → Fresh P st w → OnAsked P (ask e step st w)
  unfolding ask
  ask-keeps step st w f = elim (Option-cases (e.cancelled w)) [
    | inl on ↦
        rw (on, ask) (after_hooks-keeps step _ st (run_hooks-keeps e.hooks step st w rules.hooks f))
    | inr (m, off) ↦ rw (off, ask) (failed_on f.0)
  ]
