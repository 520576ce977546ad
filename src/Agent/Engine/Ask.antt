-- ===== src/Agent/Engine/Ask.antt =====
-- The first half of an iteration of runLoop: where the response comes from.
use mister_morph.Base.{
  trim_space, is_blank, ℕ, ◌+◌, String, Bool, true, false, not, ◌&&◌, Option, none, some, List, [],
  ◌∷◌, ◌==◌, ltb, if◌then◌else◌,
}
use mister_morph.Base.Result.{Except, ok, err}
use mister_morph.Llm.{LlmToolCall, LlmResult, plain_message}
use mister_morph.Agent.Types.{
  ToolCall, AgentResponse, no_response, Failure, llm_failed, hook_failed, cancelled, type_tool_call,
  type_plan, add_usage,
}
use mister_morph.Agent.State.{LoopState, PendingTool, add_messages}
use mister_morph.Agent.Parser.{parse_response}
use mister_morph.Agent.Host.{Engine, Hook}

-- toAgentToolCalls of agent/tools_adapter.go
unfoldable pub to_agent_tool_calls : List LlmToolCall → List ToolCall
to_agent_tool_calls [] = []
to_agent_tool_calls (c ∷ cs) =
    let rest = to_agent_tool_calls cs in
    if is_blank c.name
    then rest
    else record {
      id = trim_space c.id;
      thought = "";
      name = trim_space c.name;
      params = c.arguments;
    }
      ∷ rest

-- toLLMToolCallsFromAgent
unfoldable pub to_llm_tool_calls : List ToolCall → List LlmToolCall
to_llm_tool_calls [] = []
to_llm_tool_calls (c ∷ cs) =
    let rest = to_llm_tool_calls cs in
    if is_blank c.name
    then rest
    else record { id = trim_space c.id; name = trim_space c.name; arguments = c.params } ∷ rest

-- How the first half of an iteration ends: with an error, with `break`, with `continue`, or with a
-- response, its text and the tool calls of the assistant's message.
pub data Asked (W : Type 0) : Type 0 where
  failed : Failure → LoopState → W → Asked W
  stop : LoopState → W → Asked W
  again : LoopState → W → Asked W
  answer : AgentResponse → String → List LlmToolCall → LoopState → W → Asked W

abbrev pub json_note : String
json_note =
    "Your response was not valid JSON. You MUST respond with a JSON object containing \"type\" as \"plan\" or \"final\" (or \"final_answer\"). Try again."

abbrev pub plan_note : String
plan_note = "You MUST respond with a plan first (type=\"plan\"). Do not call tools yet. Try again."

-- Two messages: the model's text, and what the engine says to it.
abbrev pub reply : String → String → LoopState → LoopState
reply text note = add_messages (plain_message "assistant" text ∷ plain_message "user" note ∷ [])

-- st.parseFailures = n, also in the metrics
abbrev pub count_failure : LoopState → LoopState
count_failure st = record st {
  parse_failures = st.parse_failures + 1;
  ctx = record st.ctx { metrics = record st.ctx.metrics { parse_retries = st.parse_failures + 1 } };
}

abbrev pub is_none {ℓ} : {A : Type ℓ} → Option A → Bool
is_none none = true
is_none (some _) = false

module _ {W : Type 0} (e : Engine W) where
  -- The loop over the hooks.
  unfoldable pub run_hooks : List (Hook W) → ℕ → LoopState → W → Except Failure LoopState × W
  run_hooks [] step st w = (ok st, w)
  run_hooks (h ∷ hs) step st w =
      let run = h step st.ctx st.messages w in
      let st' = record st { messages = run.messages } in
      let rest = run_hooks hs step st' run.world in
      elim run.error [ none ↦ rest | some m ↦ (err (hook_failed m), run.world) ]

  -- The response of a stored pending tool call.
  unfoldable pub pending_answer : PendingTool → LoopState → W → Asked W
  unfolding to_llm_tool_calls
  pending_answer p st w =
      let calls = p.tool_call ∷ p.remaining_tool_calls in
      answer
        (record no_response {
          type = type_tool_call;
          tool_call = some p.tool_call;
          tool_calls = calls;
        })
        p.assistant_text (to_llm_tool_calls calls) st w

  -- A plan must come first, if one is required.
  unfoldable pub plan_first : AgentResponse → LlmResult → LoopState → W → Asked W
  plan_first r result st w =
      if st.plan_required && is_none st.ctx.plan && not (r.type == type_plan)
      then again (reply result.text plan_note st) w
      else answer r result.text result.tool_calls st w

  unfoldable pub not_parsed : LlmResult → LoopState → W → Asked W
  not_parsed result st w =
      let st' = count_failure st in
      if ltb e.parse_retries st'.parse_failures
      then stop st' w
      else again (reply result.text json_note st') w

  unfoldable pub parsed : LlmResult → LoopState → W → Asked W
  unfolding not_parsed plan_first
  parsed result st w = elim (parse_response e.decoder result) [
    | err _ ↦ not_parsed result st w
    | ok r ↦ plan_first r result (record st { parse_failures = 0 }) w
  ]

  -- Native tool calls come before the text.
  unfoldable pub calls_first : List ToolCall → LlmResult → LoopState → W → Asked W
  unfolding parsed
  calls_first [] result st w = parsed result st w
  calls_first (c ∷ cs) result st w =
      plan_first (record no_response { type = type_tool_call; tool_calls = c ∷ cs }) result
        (record st { parse_failures = 0 }) w

  unfoldable pub after_chat : ℕ → LoopState → Except String LlmResult × W → Asked W
  unfolding calls_first to_agent_tool_calls
  after_chat step st (err m, w) = failed (llm_failed step m) st w
  after_chat step st (ok result, w) =
      let st' = record st { ctx = add_usage result.usage st.ctx } in
      if ltb 0 e.max_token_budget && ltb e.max_token_budget st'.ctx.metrics.total_tokens
      then stop st' w
      else calls_first (to_agent_tool_calls result.tool_calls) result st' w

  -- A call of the model.
  unfoldable pub ask_model : ℕ → LoopState → W → Asked W
  unfolding after_chat
  ask_model step st w = after_chat step st (
      e.chat
        (record {
          model = st.model;
          messages = st.messages;
          tools = st.tools;
          force_json = true;
          parameters = st.extra_params;
        })
        w)

  unfoldable pub after_hooks : ℕ → Except Failure LoopState × W → LoopState → Asked W
  unfolding pending_answer ask_model
  after_hooks step (err f, w) st = failed f st w
  after_hooks step (ok st', w) st = elim st'.pending_tool [
    | none ↦ ask_model step st' w
    | some p ↦ pending_answer p st' w
  ]

  -- The iteration up to the `switch` on the response's type.
  unfoldable pub ask : ℕ → LoopState → W → Asked W
  unfolding run_hooks after_hooks
  ask step st w = elim (e.cancelled w) [
    | some m ↦ failed (cancelled step m) st w
    | none ↦ after_hooks step (run_hooks e.hooks step st w) st
  ]
