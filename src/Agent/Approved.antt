-- ===== src/Agent/Approved.antt =====
-- What the flag approvedPendingTool of agent/engine_loop.go does to the tool calls of one response.
use mister_morph.Base.{
  ◌-◌, concat, join, ℕ, String, ◌≡◌, refl, sym, ap, ◌∙◌, Bool, true, false, Option, none, some,
  List, [], ◌∷◌, if◌then◌else◌,
}
use mister_morph.Base.Result.{Except, ok, err}
use mister_morph.Guard.Types.{
  GuardResult, Decision, allow, allow_with_redact, require_approval, deny,
}
use mister_morph.Tools.{Tool, Registry}
use mister_morph.Agent.Types.{ToolCall, Context, record_step}
use mister_morph.Agent.State.{LoopState, add_messages}
use mister_morph.Agent.Host.{Engine, GuardOps}
use mister_morph.Agent.Engine.ToolGuard.{
  pre_action, post_action, meta_at, returned, active_guard, execute_tool_with_guard, pre_checked,
  run_tool, post_checked, after_post, ToolOutcome, tool_policy, pause,
}
use mister_morph.Agent.Engine.Calls.{
  run_calls, settle_call, count_repeat, after_tool, on_success, created_plan, notify_success,
  advanced_plan, notify_update, stops_run, tool_call_signature, step_record, observation_message,
  shown_observation,
}
use mister_morph.Agent.Engine.Answer.{Turn, done}
use mister_morph.Agent.Engine.Force.{after_last_chat, concluded, fall_back, force_conclusion}
use mister_morph.Llm.{LlmResult}
use mister_morph.Agent.Safety.Run.{fresh-count_repeat}
use mister_morph.Tools

abbrev pub approve_decision : Decision → Decision
approve_decision allow = allow
approve_decision allow_with_redact = allow_with_redact
approve_decision require_approval = allow
approve_decision deny = deny

abbrev pub approve : GuardResult → GuardResult
approve gr = record gr { decision = approve_decision gr.decision }

-- The guard that allows whatever needs an approval.
abbrev pub lenient : {W : Type 0} → GuardOps W → GuardOps W
lenient g = record g { evaluate = λ m a w. let (gr, w') = g.evaluate m a w in (approve gr, w') }

abbrev pub lenient? : {W : Type 0} → Option (GuardOps W) → Option (GuardOps W)
lenient? none = none
lenient? (some g) = some (lenient g)

-- The engine with that guard.
abbrev pub approving : {W : Type 0} → Engine W → Engine W
approving e = record e { guard = lenient? e.guard }

after_post-approve :
    (gr : GuardResult) (observation : String) (error : Option String)
    → after_post (approve gr) observation error ≡ after_post gr observation error
unfolding after_post
after_post-approve gr observation error = pick gr.decision
  where
    pick :
        (d : Decision)
        → after_post (record gr { decision = approve_decision d }) observation error
          ≡ after_post (record gr { decision = d }) observation error
    pick allow = refl
    pick allow_with_redact = refl
    pick require_approval = refl
    pick deny = refl

choose :
    {A : Type 0} (d : Decision) (flag : Bool) (run run' stop pause pause' : A)
    → flag ≡ true
    → run ≡ run'
    → (elim (approve_decision d) as (λ _. A) [
      | allow ↦ run
      | allow_with_redact ↦ run
      | require_approval ↦ if flag then run else pause
      | deny ↦ stop
    ])
      ≡ (elim d as (λ _. A) [
        | allow ↦ run'
        | allow_with_redact ↦ run'
        | require_approval ↦ if flag then run' else pause'
        | deny ↦ stop
      ])
choose allow flag run run' stop p p' f h = h
choose allow_with_redact flag run run' stop p p' f h = h
choose require_approval flag run run' stop p p' f h = h ∙ ap (λ b. if b then run' else p') (sym f)
choose deny flag run run' stop p p' f h = refl

module _ {W : Type 0} (e : Engine W) where
  active-approving : active_guard (approving e) ≡ lenient? (active_guard e)
  unfolding active_guard
  active-approving = pick e.guard
    where
      pass :
          (g : GuardOps W) (b : Bool)
          → (if b then some (lenient g) else none) ≡ lenient? (if b then some g else none)
      pass g true = refl
      pass g false = refl

      pick :
          (o : Option (GuardOps W))
          → active_guard (record e { guard = lenient? o })
            ≡ lenient? (active_guard (record e { guard = o }))
      pick none = refl
      pick (some g) = pass g g.enabled

  post_checked-approving :
      (o : Option (GuardOps W)) (st : LoopState) (step : ℕ) (tc : ToolCall) (observation : String)
      (error : Option String) (w : W)
      → post_checked (approving e) (lenient? o) st step tc observation error w
        ≡ post_checked e o st step tc observation error w
  unfolding post_checked
  post_checked-approving none st step tc observation error w = refl
  post_checked-approving (some g) st step tc observation error w =
      pick (g.evaluate (meta_at e st step w) (post_action tc observation) w)
    where
      pick :
          (x : GuardResult × W)
          → (let r : String × Option String = after_post (approve x.0) observation error in
              returned r.0 r.1 x.1)
            ≡ (let r : String × Option String = after_post x.0 observation error in
                returned r.0 r.1 x.1)
      pick x = ap (λ r. returned r.0 r.1 x.1) (after_post-approve x.0 observation error)

  tool_policy-approving :
      (o : Option (GuardOps W)) (tc : ToolCall)
      → tool_policy (approving e) (lenient? o) tc ≡ tool_policy e o tc
  unfolding tool_policy
  tool_policy-approving none tc = refl
  tool_policy-approving (some g) tc = refl

  run_tool-approving :
      (st : LoopState) (step : ℕ) (tc : ToolCall) (tool : Tool W) (w : W)
      → run_tool (approving e) st step tc tool w ≡ run_tool e st step tc tool w
  unfolding run_tool
  run_tool-approving st step tc tool w =
      rw (active-approving, tool_policy-approving (active_guard e) tc)
        (post_checked-approving (active_guard e) st step tc _ _ _)

  -- An approval for the pending call holds for every call
  pre_checked-approving :
      (o : Option (GuardOps W)) (st : LoopState) (step : ℕ) (text : String) (tc : ToolCall)
      (tcs : List ToolCall) (added : Bool) (tool : Tool W) (w : W)
      → st.approved_pending_tool ≡ true
      → pre_checked (approving e) (lenient? o) st step text tc tcs added tool w
        ≡ pre_checked e o st step text tc tcs added tool w
  unfolding pre_checked
  pre_checked-approving none st step text tc tcs added tool w flag =
      run_tool-approving st step tc tool w
  pre_checked-approving (some g) st step text tc tcs added tool w flag =
      choose x.0.decision st.approved_pending_tool _ _
        (returned (concat ("Error: blocked by guard (" ∷ join "; " x.0.reasons ∷ ")" ∷ []))
          (some "blocked by guard") x.1)
        (pause (approving e) (lenient g) (approve x.0) st step text tc tcs added x.1)
        (pause e g x.0 st step text tc tcs added x.1) flag (run_tool-approving st step tc tool x.1)
    where
      x : GuardResult × W
      x = g.evaluate (meta_at e st step w) (pre_action tc) w

  execute-approving :
      (st : LoopState) (step : ℕ) (text : String) (tc : ToolCall) (tcs : List ToolCall)
      (added : Bool) (w : W)
      → st.approved_pending_tool ≡ true
      → execute_tool_with_guard (approving e) st step text tc tcs added w
        ≡ execute_tool_with_guard e st step text tc tcs added w
  unfolding execute_tool_with_guard
  execute-approving st step text tc tcs added w flag = pick (Tools.get e.registry tc.name)
    where
      missing : ToolOutcome W
      missing =
          returned
            (concat (
              "Error: tool '"
              ∷ tc.name
              ∷ "' not found. Available tools: "
              ∷ Tools.tool_names e.registry
              ∷ []))
            (some "tool not found") w

      pick :
          (o : Option (Tool W))
          → (elim o as (λ _. ToolOutcome W) [
            | none ↦ missing
            | some tool ↦
                pre_checked
                  (approving e)
                  (active_guard (approving e))
                  st
                  step
                  text
                  tc
                  tcs
                  added
                  tool
                  w
          ])
            ≡ (elim o as (λ _. ToolOutcome W) [
              | none ↦ missing
              | some tool ↦ pre_checked e (active_guard e) st step text tc tcs added tool w
            ])
      pick none = refl
      pick (some tool) =
          ap (λ o. pre_checked (approving e) o st step text tc tcs added tool w) active-approving
          ∙ pre_checked-approving (active_guard e) st step text tc tcs added tool w flag

  force-approving :
      (st : LoopState) (w : W) → force_conclusion (approving e) st w ≡ force_conclusion e st w
  unfolding force_conclusion after_last_chat concluded fall_back
  force-approving st w = pick (e.chat _ w)
    where
      pick :
          (x : Except String LlmResult × W)
          → after_last_chat (approving e) st.ctx x ≡ after_last_chat e st.ctx x
      pick (err m, w) = refl
      pick (ok r, w) = refl

  after_tool-approving :
      (tc : ToolCall) (observation : String) (error : Option String) (c : Context) (w : W)
      → after_tool (approving e) tc observation error c w ≡ after_tool e tc observation error c w
  unfolding after_tool on_success created_plan notify_success advanced_plan notify_update
  after_tool-approving tc observation none c w = refl
  after_tool-approving tc observation (some m) c w = refl

  stops_run-approving :
      (tc : ToolCall) (error : Option String)
      → stops_run (approving e) tc error ≡ stops_run e tc error
  unfolding stops_run
  stops_run-approving tc none = refl
  stops_run-approving tc (some m) = refl

  count_repeat-approving :
      (tc : ToolCall) (error : Option String) (st : LoopState)
      → count_repeat (approving e) tc error st ≡ count_repeat e tc error st
  unfolding count_repeat tool_call_signature
  count_repeat-approving tc none st = refl
  count_repeat-approving tc (some m) st = refl

  settle_call-approving :
      (step started : ℕ) (tc : ToolCall) (o : ToolOutcome W) (st : LoopState)
      (continue continue' : LoopState → W → Turn W)
      → st.approved_pending_tool ≡ true
      → ((st' : LoopState) (w : W)
          → st'.approved_pending_tool ≡ true
          → continue st' w ≡ continue' st' w)
      → settle_call (approving e) step started tc o st continue
        ≡ settle_call e step started tc o st continue'
  unfolding settle_call
  settle_call-approving step started tc o st continue continue' flag same =
      rw
        (
          after_tool-approving tc o.observation o.error,
          stops_run-approving tc o.error,
          count_repeat-approving tc o.error,
          force-approving,
        )
        (cc (same st'' r.1 (fresh-count_repeat e tc o.error _ ∙ flag)))
    where
      r : Context × W
      r =
          after_tool e tc o.observation o.error
            (record_step (step_record step tc o.observation o.error (e.now o.world - started))
              st.ctx)
            o.world

      st'' : LoopState
      st'' = count_repeat e tc o.error (
          add_messages (observation_message tc (shown_observation tc o.observation o.error) ∷ [])
            (record st { ctx = r.0 }))

  -- After an approval of the pending call, the other calls of the same response run as if the guard
  -- allowed each call that it wants approved: none of them waits for an approval of its own.
  pub run_calls-approving :
      (step : ℕ) (text : String) (tcs : List ToolCall) (st : LoopState) (w : W)
      → st.approved_pending_tool ≡ true
      → run_calls (approving e) step text tcs st w ≡ run_calls e step text tcs st w
  unfolding run_calls
  run_calls-approving step text [] st w flag = refl
  run_calls-approving step text (tc ∷ tcs) st w flag =
      rw (execute-approving st step text tc tcs true w flag) (
        ap
          (λ t.
            if o.paused
            then done
                (record { final = o.paused_final; ctx = st.ctx; error = none; world = o.world })
            else t)
          (settle_call-approving step (e.now w) tc o st _ _ flag
            (λ st' w' flag'. run_calls-approving step text tcs st' w' flag')))
    where
      o : ToolOutcome W
      o = execute_tool_with_guard e st step text tc tcs true w
