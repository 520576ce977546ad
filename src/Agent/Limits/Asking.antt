-- ===== src/Agent/Limits/Asking.antt =====
-- The first half of an iteration counts at most one round, and gives a response that the `switch` has
-- a case for.
use mister_morph.Base.{
  ℕ, suc, String, ◌≡◌, refl, inl, inr, Bool, true, false, Option, none, some, List, [], ◌∷◌, arith,
  if◌then◌else◌, Option-cases,
}
use mister_morph.Base.Result.{Except, ok, err}
use mister_morph.Llm.{LlmResult, LlmToolCall}
use mister_morph.Agent.Types.{
  ToolCall, AgentResponse, Failure, no_response, type_tool_call, add_usage,
}
use mister_morph.Agent.State.{LoopState, PendingTool}
use mister_morph.Agent.Parser.{parse_response}
use mister_morph.Agent.Parser.Accepted.{IsAccepted, parse_response-IsAccepted}
use mister_morph.Agent.Host.{Engine, Hook}
use mister_morph.Agent.Engine.Ask.{
  Asked, failed, stop, again, answer, run_hooks, pending_answer, plan_first, not_parsed, parsed,
  calls_first, after_chat, ask_model, after_hooks, ask, to_agent_tool_calls, count_failure,
}
use mister_morph.Agent.Limits.Counts.{
  Counted, Counted-add_usage, Counted-le, HostError, was_cancelled, from_hook, from_model,
}

-- A parsed plan or final answer, or at least one native tool call.
pub data IsTaken (r : AgentResponse) : Type 0 where
  parsed_text : IsAccepted r → IsTaken r
  native_calls :
      (tc : ToolCall) (tcs : List ToolCall)
      → r.type ≡ type_tool_call
      → r.tool_calls ≡ tc ∷ tcs
      → IsTaken r

pub data Within {W : Type 0} (max n : ℕ) : Asked W → Type 0 where
  failed_in :
      {f : Failure} {st : LoopState} {w : W}
      → HostError (some f)
      → Counted max n st.ctx
      → Within max n (failed f st w)
  stop_in : {st : LoopState} {w : W} → Counted max n st.ctx → Within max n (stop st w)
  again_in : {st : LoopState} {w : W} → Counted max n st.ctx → Within max n (again st w)
  answer_in :
      {r : AgentResponse} {text : String} {calls : List LlmToolCall} {st : LoopState} {w : W}
      → IsTaken r
      → Counted max n st.ctx
      → Within max n (answer r text calls st w)

module _ {W : Type 0} (e : Engine W) (max n : ℕ) where
  Within-if :
      (b : Bool) (x y : Asked W)
      → Within max n x
      → Within max n y
      → Within max n (if b then x else y)
  Within-if true x y h k = h
  Within-if false x y h k = k

  plan_first-Within :
      (r : AgentResponse) (result : LlmResult) (st : LoopState) (w : W)
      → IsTaken r
      → Counted max n st.ctx
      → Within max n (plan_first e r result st w)
  unfolding plan_first
  plan_first-Within r result st w t h = Within-if _ _ _ (again_in h) (answer_in t h)

  not_parsed-Within :
      (result : LlmResult) (st : LoopState) (w : W)
      → Counted max n st.ctx
      → Within max n (not_parsed e result st w)
  unfolding not_parsed
  not_parsed-Within result st w h =
      let h' : Counted max n (count_failure st).ctx = record {
        limit = h.limit;
        rounds = h.rounds;
        calls = h.calls;
      } in
      Within-if _ _ _ (stop_in h') (again_in h')

  parsed-Within :
      (result : LlmResult) (st : LoopState) (w : W)
      → Counted max n st.ctx
      → Within max n (parsed e result st w)
  unfolding parsed
  parsed-Within result st w h = pick (parse_response e.decoder result) refl
    where
      pick :
          (x : Except Failure AgentResponse)
          → parse_response e.decoder result ≡ x
          → Within max n (elim x as (λ _. Asked W) [
            | err _ ↦ not_parsed e result st w
            | ok r ↦ plan_first e r result (record st { parse_failures = 0 }) w
          ])
      pick (err _) q = not_parsed-Within result st w h
      pick (ok r) q =
          plan_first-Within r result (record st { parse_failures = 0 }) w
            (parsed_text (parse_response-IsAccepted e.decoder result r q).0) h

  calls_first-Within :
      (tcs : List ToolCall) (result : LlmResult) (st : LoopState) (w : W)
      → Counted max n st.ctx
      → Within max n (calls_first e tcs result st w)
  unfolding calls_first
  calls_first-Within [] result st w h = parsed-Within result st w h
  calls_first-Within (c ∷ cs) result st w h =
      plan_first-Within (record no_response { type = type_tool_call; tool_calls = c ∷ cs }) result
        (record st { parse_failures = 0 }) w (native_calls c cs refl refl) h

abbrev CountedHooks : {W : Type 0} → ℕ → ℕ → Except Failure LoopState × W → Type 0
CountedHooks max n (err f, w) = HostError (some f)
CountedHooks max n (ok st, w) = Counted max n st.ctx

module _ {W : Type 0} (e : Engine W) (max n : ℕ) where
  after_chat-Within :
      (step : ℕ) (st : LoopState) (x : Except String LlmResult × W)
      → Counted max n st.ctx
      → Within max (suc n) (after_chat e step st x)
  unfolding after_chat
  after_chat-Within step st (err m, w) h =
      failed_in (from_model step m) (Counted-le max n (suc n) st.ctx (omega arith) h)
  after_chat-Within step st (ok result, w) h =
      let h' = Counted-add_usage max n result.usage st.ctx h in
      Within-if e max (suc n) _ _ _ (stop_in h') (
        calls_first-Within e max (suc n) (to_agent_tool_calls result.tool_calls) result
          (record st { ctx = add_usage result.usage st.ctx }) w h')

  run_hooks-Counted :
      (hs : List (Hook W)) (step : ℕ) (st : LoopState) (w : W)
      → Counted max n st.ctx
      → CountedHooks max n (run_hooks e hs step st w)
  unfolding run_hooks
  run_hooks-Counted [] step st w h = h
  run_hooks-Counted (k ∷ ks) step st w h = elim (Option-cases (k step st.ctx st.messages w).error) [
    | inl fine ↦ rw fine (run_hooks-Counted ks step _ _ h)
    | inr (m, broken) ↦ rw broken (from_hook m)
  ]

  after_hooks-Within :
      (step : ℕ) (x : Except Failure LoopState × W) (st : LoopState)
      → Counted max n st.ctx
      → CountedHooks max n x
      → Within max (suc n) (after_hooks e step x st)
  unfolding after_hooks
  after_hooks-Within step (err m, w) st h k =
      failed_in k (Counted-le max n (suc n) st.ctx (omega arith) h)
  after_hooks-Within step (ok st', w) st h k = pick st'.pending_tool
    where
      pick :
          (o : Option PendingTool)
          → Within max (suc n) (elim o as (λ _. Asked W) [
            | none ↦ ask_model e step st' w
            | some p ↦ pending_answer e p st' w
          ])
      pick none = unfold ask_model in after_chat-Within step st' _ k
      pick (some p) =
          unfold pending_answer in
          answer_in (native_calls p.tool_call p.remaining_tool_calls refl refl)
            (Counted-le max n (suc n) st'.ctx (omega arith) k)

  pub ask-Within :
      (step : ℕ) (st : LoopState) (w : W)
      → Counted max n st.ctx
      → Within max (suc n) (ask e step st w)
  unfolding ask
  ask-Within step st w h = elim (Option-cases (e.cancelled w)) [
    | inl on ↦ rw (on, ask) (after_hooks-Within step _ st h (run_hooks-Counted e.hooks step st w h))
    | inr (m, off) ↦
        rw (off, ask)
          (failed_in (was_cancelled step m) (Counted-le max n (suc n) st.ctx (omega arith) h))
  ]
