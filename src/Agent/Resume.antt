-- ===== src/Agent/Resume.antt =====
-- agent/engine_resume.go: an approved run goes on. json.Unmarshal of the stored state, ActionHash of
-- guard/types.go and ExtractFileWritePaths of agent/file_intent.go come as functions, and so does the
-- guard's store. The policy on auth profiles that the context carries is left out.
pub mod Authorised
mod Examples
use mister_morph.Base.{
  trim_space, concat, is_blank, String, Bool, true, false, ◌||◌, Option, none, some, List, [], ◌∷◌,
  ◌==◌, ltb, leb, if◌then◌else◌,
}
use mister_morph.Base.Print.{show_nat}
use mister_morph.Base.Result.{Except, ok, err}
use mister_morph.Guard.Types.{Action, ApprovalStatus, pending, approved, denied, expired}
use mister_morph.Guard.Approvals.{ApprovalRecord}
use mister_morph.Agent.Types.{Final, Output}
use mister_morph.Agent.State.{LoopState, ResumeState, context_from_snapshot}
use mister_morph.Agent.Host.{Engine}
use mister_morph.Agent.Engine.Force.{Outcome}
use mister_morph.Agent.Engine.ToolGuard.{active_guard, pre_action}
use mister_morph.Agent.Engine.Loop.{run_loop}

pub record Resumption (W : Type 0) : Type 0 where
  -- GetApproval
  pub get_approval : String → W → Except String (Option ApprovalRecord)
  -- unmarshalResumeState
  pub unmarshal_resume : String → Except String ResumeState
  pub action_hash : Action → Except String String
  pub extract_file_write_paths : String → List String

-- How Resume ends: with an error before the loop, with a pending final, or as the loop ends.
pub data Resumed (W : Type 0) : Type 0 where
  refused_with : String → Resumed W
  still_pending : Final → Resumed W
  ran : Outcome W → Resumed W

abbrev pub status_text : ApprovalStatus → String
status_text pending = "pending"
status_text approved = "approved"
status_text denied = "denied"
status_text expired = "expired"

abbrev pub is_approved : ApprovalStatus → Bool
is_approved pending = false
is_approved approved = true
is_approved denied = false
is_approved expired = false

abbrev pub not_approved_final : String → ApprovalRecord → Final
not_approved_final id rec = record {
  thought = "";
  output = Output.pending (record {
    status = "pending";
    approval_request_id = id;
    message = concat ("Approval is not approved yet (status=" ∷ status_text rec.status ∷ ")." ∷ []);
  });
  plan = none;
}

-- The state in which the loop starts.
unfoldable pub resumed_state : (String → List String) → ResumeState → LoopState
resumed_state extract rs =
    let c = context_from_snapshot rs.agent_ctx in
    record {
      run_id = rs.run_id;
      model = rs.model;
      messages = rs.messages;
      ctx = c;
      extra_params = rs.extra_params;
      tools = [];
      plan_required = rs.plan_required;
      parse_failures = rs.parse_failures;
      requested_writes = extract c.task;
      pending_tool = some rs.pending_tool;
      approved_pending_tool = true;
      next_step = rs.step;
      last_tool_sig = "";
      last_tool_repeat = 0;
    }

module _ {W : Type 0} (e : Engine W) (r : Resumption W) where
  unfoldable pub check_hash : ApprovalRecord → ResumeState → W → Resumed W
  unfolding resumed_state
  check_hash rec rs w = elim (r.action_hash (pre_action rs.pending_tool.tool_call)) [
    | err m ↦ refused_with m
    | ok h ↦
        if is_blank rec.action_hash || trim_space rec.action_hash == h
        then ran (run_loop e (resumed_state r.extract_file_write_paths rs) w)
        else refused_with
            (concat ("approval action_hash mismatch (expected " ∷ rec.action_hash ∷ ")" ∷ []))
  ]

  unfoldable pub check_state : ApprovalRecord → W → Resumed W
  unfolding check_hash
  check_state rec w = elim (r.unmarshal_resume rec.resume_state) [
    | err m ↦ refused_with m
    | ok rs ↦
        if leb rs.version 1
        then check_hash rec rs w
        else refused_with (concat ("unsupported resume_state version: " ∷ show_nat rs.version ∷ []))
  ]

  unfoldable pub check_record : String → ApprovalRecord → W → Resumed W
  unfolding check_state
  check_record id rec w =
      if ltb rec.expires_at (e.now w)
      then refused_with (concat ("approval is expired: " ∷ id ∷ []))
      else if is_approved rec.status
      then (if rec.resume_state == ""
          then refused_with (concat ("approval has no resume_state: " ∷ id ∷ []))
          else check_state rec w)
      else still_pending (not_approved_final id rec)

  unfoldable pub check_approval : String → W → Resumed W
  unfolding check_record
  check_approval id w = elim (r.get_approval id w) [
    | err m ↦ refused_with m
    | ok o ↦ elim o [
      | none ↦ refused_with (concat ("approval not found: " ∷ id ∷ []))
      | some rec ↦ check_record id rec w
    ]
  ]

  -- Resume
  unfoldable pub resume : String → W → Resumed W
  unfolding active_guard check_approval
  resume approval_request_id w = elim (active_guard e) [
    | none ↦ refused_with "guard is not enabled"
    | some g ↦
        let id = trim_space approval_request_id in
        if id == "" then refused_with "missing approval_request_id" else check_approval id w
  ]
