-- ===== src/Agent/Engine/Force.antt =====
-- forceConclusion of agent/engine_helpers.go: one last call of the model, without tools.
use mister_morph.Base.{String, true, ◌||◌, Option, none, some, [], ◌∷◌, ◌++◌, ◌==◌, if◌then◌else◌}
use mister_morph.Base.Result.{Except, ok, err}
use mister_morph.Llm.{Message, plain_message, LlmResult}
use mister_morph.Agent.Types.{
  Final, Output, Context, Failure, AgentResponse, type_final, type_final_answer, final_payload,
  add_usage,
}
use mister_morph.Agent.State.{LoopState}
use mister_morph.Agent.Parser.{parse_response}
use mister_morph.Agent.Host.{Engine}

-- What runLoop returns, with the world that it leaves.
pub record Outcome (W : Type 0) : Type 0 where
  pub final : Option Final
  pub ctx : Context
  pub error : Option Failure
  pub world : W

abbrev pub insufficient : Context → Final
insufficient c = record {
  thought = "";
  output = Output.text "insufficient_evidence";
  plan = c.plan;
}

-- if agentCtx.Plan != nil && fp.Plan == nil { fp.Plan = agentCtx.Plan }
abbrev pub with_plan : Context → Final → Final
with_plan c f = elim c.plan [
  | none ↦ f
  | some p ↦ elim f.plan [ none ↦ record f { plan = some p } | some _ ↦ f ]
]

abbrev pub with_plan? : Context → Option Final → Option Final
with_plan? c none = none
with_plan? c (some f) = some (with_plan c f)

abbrev pub conclusion_note : Message
conclusion_note =
    plain_message "user"
      "You have reached the maximum number of steps or token budget. Provide your final output NOW as a JSON final response."

module _ {W : Type 0} (e : Engine W) where
  unfoldable pub fall_back : Context → W → Outcome W
  fall_back c w = record {
    final = elim e.fallback_final [ none ↦ some (insufficient c) | some f ↦ f ];
    ctx = c;
    error = none;
    world = w;
  }

  unfoldable pub concluded : Context → AgentResponse → W → Outcome W
  unfolding fall_back
  concluded c r w =
      if r.type == type_final || r.type == type_final_answer
      then (let c' = record c { raw_final_answer = r.raw_final_answer } in
          record { final = with_plan? c' (final_payload r); ctx = c'; error = none; world = w })
      else fall_back c w

  unfoldable pub after_last_chat : Context → Except String LlmResult × W → Outcome W
  unfolding concluded
  after_last_chat c (err m, w) = fall_back c w
  after_last_chat c (ok result, w) =
      let c' = add_usage result.usage c in
      elim (parse_response e.decoder result) [ ok r ↦ concluded c' r w | err _ ↦ fall_back c' w ]

  -- forceConclusion
  unfoldable pub force_conclusion : LoopState → W → Outcome W
  unfolding after_last_chat
  force_conclusion st w = after_last_chat st.ctx (
      e.chat
        (record {
          model = st.model;
          messages = st.messages ++ conclusion_note ∷ [];
          tools = [];
          force_json = true;
          parameters = st.extra_params;
        })
        w)
