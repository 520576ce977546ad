-- ===== src/Agent/Engine/Answer.antt =====
-- The cases TypePlan and TypeFinal of runLoop's `switch`.
use mister_morph.Base.{
  trim_space, concat, join, is_blank, ℕ, String, Bool, true, false, Option, none, some, List, [],
  ◌∷◌, ◌==◌, nat_eq, if◌then◌else◌, length,
}
use mister_morph.Guard.Types.{
  Action, GuardResult, allow, allow_with_redact, require_approval, deny, output_publish,
}
use mister_morph.Agent.Plan.{normalize_plan_steps, complete_all_plan_steps}
use mister_morph.Agent.Types.{Final, Output, Context, AgentResponse, final_payload}
use mister_morph.Agent.State.{LoopState}
use mister_morph.Agent.Host.{Engine, GuardOps}
use mister_morph.Agent.Engine.ToolGuard.{active_guard, meta_at}
use mister_morph.Agent.Engine.Force.{Outcome, with_plan}
use mister_morph.Agent.Engine.Ask.{reply}
use mister_morph.Tools

-- How an iteration ends: the next one, `break`, or a return.
pub data Turn (W : Type 0) : Type 0 where
  next : LoopState → W → Turn W
  break : LoopState → W → Turn W
  done : Outcome W → Turn W

abbrev pub plan_received : String
plan_received = "Plan received. Proceed to execute it. Use tools as needed, then return final."

-- case TypePlan
unfoldable pub take_plan : {W : Type 0} → AgentResponse → String → LoopState → W → Turn W
take_plan r text st w =
    next
      (reply text plan_received
        (record st { ctx = record st.ctx { plan = normalize_plan_steps r.plan } }))
      w

-- missingFiles of agent/engine.go
unfoldable pub missing_files : (String → Bool) → List String → List String
missing_files exists [] = []
missing_files exists (p ∷ ps) =
    let path = trim_space p in
    let rest = missing_files exists ps in
    if path == "" then rest else if exists path then rest else path ∷ rest

abbrev pub write_note : List String → String
write_note missing = concat (
    "You must write the requested file(s) before finishing: "
    ∷ join ", " missing
    ∷ ". Next, call the write_file tool (preferred) or bash to create/update them. The file content should be the final markdown/report (do not include meta text like 'Writing to ...')."
    ∷ [])

abbrev pub bash_note : List String → String
bash_note missing = concat (
    "You must write the requested file(s) before finishing: "
    ∷ join ", " missing
    ∷ ". Next, call the bash tool to create/update them. The file content should be the final markdown/report (do not include meta text like 'Writing to ...')."
    ∷ [])

-- The plan of the context is completed, and a final answer without a plan carries the plan as
-- it then is: it is one object.
abbrev pub complete_plan : Context → Context
complete_plan c = record c { plan = complete_all_plan_steps c.plan }

abbrev pub has_tool {ℓ} : {A : Type ℓ} → Option A → Bool
has_tool none = false
has_tool (some _) = true

module _ {W : Type 0} (e : Engine W) where
  -- What the model is told if a requested file is missing and a tool can write it.
  unfoldable pub must_write : LoopState → W → Option String
  unfolding missing_files
  must_write st w =
      let missing = missing_files (λ p. e.exists p w) st.requested_writes in
      if nat_eq (length missing) 0
      then none
      else if has_tool (Tools.get e.registry "write_file")
      then some (write_note missing)
      else if has_tool (Tools.get e.registry "bash")
      then some (bash_note missing)
      else none

  unfoldable pub publish_action : String → Action
  publish_action s = record {
    type = output_publish;
    tool_name = "";
    tool_params = [];
    content = s;
    url = "";
    method = "";
  }

  unfoldable pub redacted : GuardResult → Final → Final
  redacted gr f = elim gr.decision [
    | allow ↦ f
    | allow_with_redact ↦
        if is_blank gr.redacted_content
        then f
        else record f { output = Output.text gr.redacted_content }
    | require_approval ↦ f
    | deny ↦ f
  ]

  unfoldable pub publish_text : GuardOps W → LoopState → ℕ → Final → String → W → Final × W
  unfolding publish_action redacted
  publish_text g st step f s w =
      if is_blank s
      then (f, w)
      else (let (gr, w') = g.evaluate (meta_at e st step w) (publish_action s) w in
          (redacted gr f, w'))

  -- The guard of the published output, which may only redact.
  unfoldable pub publish : Option (GuardOps W) → LoopState → ℕ → Final → W → Final × W
  unfolding publish_text
  publish none st step f w = (f, w)
  publish (some g) st step f w = elim f.output [
    | Output.text s ↦ publish_text g st step f s w
    | Output.pending p ↦ (f, w)
    | Output.other v ↦ (f, w)
  ]

  unfoldable pub finished : LoopState → ℕ → Final → W → Turn W
  unfolding publish active_guard
  finished st step f w =
      let (f', w') = publish (active_guard e) st step f w in
      done (record { final = some f'; ctx = st.ctx; error = none; world = w' })

  unfoldable pub with_payload : String → LoopState → ℕ → Option Final → W → Turn W
  unfolding must_write finished
  with_payload text st step none w =
      done (record { final = none; ctx = st.ctx; error = none; world = w })
  with_payload text st step (some f) w =
      let st' = record st { ctx = complete_plan st.ctx } in
      elim (must_write st' w) [
        | some note ↦ next (reply text note st') w
        | none ↦ finished st' step (with_plan st'.ctx f) w
      ]

  -- case TypeFinal, TypeFinalAnswer
  unfoldable pub take_final : AgentResponse → String → LoopState → ℕ → W → Turn W
  unfolding with_payload
  take_final r text st step w =
      with_payload text
        (record st { ctx = record st.ctx { raw_final_answer = r.raw_final_answer } }) step
        (final_payload r) w
