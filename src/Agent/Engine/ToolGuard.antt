-- ===== src/Agent/Engine/ToolGuard.antt =====
-- executeToolWithGuard of agent/engine_loop.go: the guard before a tool, the tool, the guard after.
use mister_morph.Base.{
  pos, to_lower, concat, join, is_blank, ℕ, String, Bool, true, false, ◌&&◌, Option, none, some,
  List, [], ◌∷◌, ◌==◌, nat_eq, if◌then◌else◌, length,
}
use mister_morph.Base.Json.{get_string}
use mister_morph.Base.Print.{show_nat}
use mister_morph.Base.Result.{Except, ok, err}
use mister_morph.Guard.Types.{
  Meta, Action, GuardResult, allow, allow_with_redact, require_approval, deny, NetworkPolicy,
  tool_call_pre, tool_call_post,
}
use mister_morph.Tools.{Tool, ToolRun}
use mister_morph.Agent.Types.{ToolCall, Final, Output}
use mister_morph.Agent.State.{LoopState, ResumeState, snapshot_from_context}
use mister_morph.Agent.Host.{Engine, GuardOps}
use mister_morph.Tools

pub record ToolOutcome (W : Type 0) : Type 0 where
  pub observation : String
  pub error : Option String
  pub paused_final : Option Final
  pub paused : Bool
  pub world : W

-- A return that does not pause.
abbrev pub returned : {W : Type 0} → String → Option String → W → ToolOutcome W
returned observation error w = record {
  observation = observation;
  error = error;
  paused_final = none;
  paused = false;
  world = w;
}

abbrev pub pre_action : ToolCall → Action
pre_action tc = record {
  type = tool_call_pre;
  tool_name = tc.name;
  tool_params = tc.params;
  content = "";
  url = "";
  method = "";
}

abbrev pub post_action : ToolCall → String → Action
post_action tc observation = record {
  type = tool_call_post;
  tool_name = tc.name;
  tool_params = [];
  content = observation;
  url = "";
  method = "";
}

-- The text of an observation after the tool returned.
unfoldable pub with_error : String → Option String → String
with_error observation none = observation
with_error observation (some e) =
    if is_blank observation
    then concat ("error: " ∷ e ∷ [])
    else concat (observation ∷ "\n\nerror: " ∷ e ∷ [])

abbrev pub or_blocked : Option String → Option String
or_blocked none = some "blocked by guard"
or_blocked (some e) = some e

-- What the guard's verdict on the output makes of it.
unfoldable pub after_post : GuardResult → String → Option String → String × Option String
after_post gr observation error = elim gr.decision [
  | allow ↦ (observation, error)
  | allow_with_redact ↦
      (if is_blank gr.redacted_content then observation else gr.redacted_content, error)
  | require_approval ↦ (observation, error)
  | deny ↦ ("Error: blocked by guard (tool output)", or_blocked error)
]

abbrev pub some_prefixes : Option NetworkPolicy → Option NetworkPolicy
some_prefixes none = none
some_prefixes (some p) = if nat_eq (length p.allowed_url_prefixes) 0 then none else some p

abbrev pub or_empty : Option String → String
or_empty none = ""
or_empty (some s) = s

module _ {W : Type 0} (e : Engine W) where
  -- e.guard, if it is not nil and enabled
  unfoldable pub active_guard : Option (GuardOps W)
  active_guard = elim e.guard [ none ↦ none | some g ↦ if g.enabled then some g else none ]

  abbrev pub meta_at : LoopState → ℕ → W → Meta
  meta_at st step w = record { run_id = st.run_id; step = pos step; time = e.now w }

  -- The network policy that the tool's context carries.
  unfoldable pub tool_policy : Option (GuardOps W) → ToolCall → Option NetworkPolicy
  unfolding get_string
  tool_policy none tc = none
  tool_policy (some g) tc =
      if to_lower tc.name == "url_fetch"
        && is_blank (or_empty (get_string "auth_profile" tc.params))
      then some_prefixes g.network_policy_for_url_fetch
      else none

  unfoldable pub post_checked :
      Option (GuardOps W) → LoopState → ℕ → ToolCall → String → Option String → W → ToolOutcome W
  unfolding after_post
  post_checked none st step tc observation error w = returned observation error w
  post_checked (some g) st step tc observation error w =
      let (gr, w') = g.evaluate (meta_at st step w) (post_action tc observation) w in
      let (observation', error') = after_post gr observation error in
      returned observation' error' w'

  -- The tool is executed, and its output is checked.
  unfoldable pub run_tool : LoopState → ℕ → ToolCall → Tool W → W → ToolOutcome W
  unfolding active_guard tool_policy with_error post_checked
  run_tool st step tc tool w =
      let run = tool.execute (tool_policy active_guard tc) tc.params w in
      post_checked active_guard st step tc (with_error run.observation run.error) run.error
        run.world

  abbrev pub resume_state : LoopState → ℕ → String → ToolCall → List ToolCall → Bool → ResumeState
  resume_state st step assistant_text tc remaining added = record {
    version = 1;
    run_id = st.run_id;
    model = st.model;
    step = step;
    plan_required = st.plan_required;
    parse_failures = st.parse_failures;
    skill_auth_profiles = e.skill_auth_profiles;
    enforce_skill_auth = e.enforce_skill_auth;
    messages = st.messages;
    extra_params = st.extra_params;
    agent_ctx = snapshot_from_context st.ctx;
    pending_tool = record {
      assistant_text = assistant_text;
      assistant_text_added = added;
      tool_call = tc;
      remaining_tool_calls = remaining;
    };
  }

  abbrev pub pending_final : LoopState → ℕ → ToolCall → String → Final
  pending_final st step tc id = record {
    thought = "";
    output = Output.pending (record {
      status = "pending";
      approval_request_id = id;
      message = concat (
          "Approval required to execute tool "
          ∷ e.quote tc.name
          ∷ " at step "
          ∷ show_nat step
          ∷ "."
          ∷ []);
    });
    plan = st.ctx.plan;
  }

  unfoldable pub after_request : LoopState → ℕ → ToolCall → Except String String × W → ToolOutcome W
  after_request st step tc (ok id, w) = record {
    observation = "";
    error = none;
    paused_final = some (pending_final st step tc id);
    paused = true;
    world = w;
  }
  after_request st step tc (err m, w) =
      returned (concat ("Error: approval request failed: " ∷ m ∷ [])) (some m) w

  -- The run is paused: its state is stored with an approval request.
  unfoldable pub pause :
      GuardOps W
      → GuardResult
      → LoopState
      → ℕ
      → String
      → ToolCall
      → List ToolCall
      → Bool
      → W
      → ToolOutcome W
  unfolding after_request
  pause g gr st step assistant_text tc remaining added w =
      elim (e.marshal_resume (resume_state st step assistant_text tc remaining added)) [
        | err m ↦ returned "" (some m) w
        | ok bytes ↦ after_request st step tc (
            g.request_approval (meta_at st step w) (pre_action tc) gr
              (concat ("ToolCallPre tool=" ∷ tc.name ∷ [])) bytes w)
      ]

  unfoldable pub pre_checked :
      Option (GuardOps W)
      → LoopState
      → ℕ
      → String
      → ToolCall
      → List ToolCall
      → Bool
      → Tool W
      → W
      → ToolOutcome W
  unfolding run_tool pause
  pre_checked none st step assistant_text tc remaining added tool w = run_tool st step tc tool w
  pre_checked (some g) st step assistant_text tc remaining added tool w =
      let (gr, w') = g.evaluate (meta_at st step w) (pre_action tc) w in
      elim gr.decision [
        | allow ↦ run_tool st step tc tool w'
        | allow_with_redact ↦ run_tool st step tc tool w'
        | require_approval ↦
            if st.approved_pending_tool
            then run_tool st step tc tool w'
            else pause g gr st step assistant_text tc remaining added w'
        | deny ↦
            returned (concat ("Error: blocked by guard (" ∷ join "; " gr.reasons ∷ ")" ∷ []))
              (some "blocked by guard") w'
      ]

  -- executeToolWithGuard
  unfoldable pub execute_tool_with_guard :
      LoopState → ℕ → String → ToolCall → List ToolCall → Bool → W → ToolOutcome W
  unfolding active_guard pre_checked
  execute_tool_with_guard st step assistant_text tc remaining added w =
      elim (Tools.get e.registry tc.name) [
        | none ↦
            returned
              (concat (
                "Error: tool '"
                ∷ tc.name
                ∷ "' not found. Available tools: "
                ∷ Tools.tool_names e.registry
                ∷ []))
              (some "tool not found") w
        | some tool ↦ pre_checked active_guard st step assistant_text tc remaining added tool w
      ]
