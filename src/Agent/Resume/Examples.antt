-- ===== src/Agent/Resume/Examples.antt =====
-- The small host of the other examples, after an approval.
use mister_morph.Base.{
  trim_space, is_blank, ℕ, ◌≡◌, refl, ◌≢◌, true, false, none, some, [], ◌∷◌, arith, ◌==◌, eq_iff,
  if◌then◌else◌, All, map,
}
use mister_morph.Base.Result.{ok}
use mister_morph.Guard.Types.{ActionType, RiskLevel, Decision, ApprovalStatus}
use mister_morph.Guard.Approvals.{ApprovalRecord}
use mister_morph.Agent.Types.{Step, Context, new_context}
use mister_morph.Agent.State.{ResumeState, snapshot_from_context, context_from_snapshot}
use mister_morph.Agent.State.RoundTrip.{
  in_milliseconds, context_from_snapshot-snapshot_from_context,
}
use mister_morph.Agent.Engine.Loop.{run_loop}
use mister_morph.Agent.Engine.ToolGuard.{active_guard}
use mister_morph.Agent.Resume.{Resumption, ran, resume, resumed_state}
use mister_morph.Agent.Resume.Authorised.{Authorised, resume-Authorised}
use mister_morph.Agent.Examples.{host}

abbrev failed_step : Step
failed_step = record {
  step_number = 1;
  thought = "";
  action = "bash";
  action_input = [];
  observation = "error: no";
  duration = 1500001;
  error = some "no";
}

abbrev context : Context
context = record (new_context "task" 5) { steps = failed_step ∷ [] }

no_empty_error : All (λ s. s.error ≢ some "") (failed_step ∷ [])
no_empty_error = ((λ h. ground (arith, eq_iff "no" "")), tt)

context_from_snapshot-snapshot_from_context_example :
    context_from_snapshot (snapshot_from_context context)
    ≡ record context { raw_final_answer = ""; steps = map in_milliseconds context.steps }
context_from_snapshot-snapshot_from_context_example =
    context_from_snapshot-snapshot_from_context context no_empty_error

abbrev stored_state : ResumeState
stored_state = record {
  version = 1;
  run_id = "r1";
  model = "m";
  step = 0;
  plan_required = false;
  parse_failures = 0;
  skill_auth_profiles = [];
  enforce_skill_auth = false;
  messages = [];
  extra_params = [];
  agent_ctx = snapshot_from_context context;
  pending_tool = record {
    assistant_text = "";
    assistant_text_added = true;
    tool_call = record { id = "c1"; thought = ""; name = "bash"; params = [] };
    remaining_tool_calls = [];
  };
}

abbrev approval : ApprovalRecord
approval = record {
  id = "apr_1";
  run_id = "r1";
  created_at = 0;
  expires_at = 9;
  resolved_at = some 1;
  status = ApprovalStatus.approved;
  actor = "me";
  comment = "";
  action_type = ActionType.tool_call_pre;
  tool_name = "bash";
  action_hash = "h";
  risk_level = RiskLevel.high;
  decision = Decision.require_approval;
  reasons = [];
  action_summary_redacted = "bash";
  resume_state = "{}";
}

abbrev resumption : Resumption ℕ
resumption = record {
  get_approval = λ id w. ok (if id == "apr_1" then some approval else none);
  unmarshal_resume = λ s. ok stored_state;
  action_hash = λ a. ok "h";
  extract_file_write_paths = λ task. [];
}

resumes :
    resume host resumption " apr_1" 0
    ≡ ran (run_loop host (resumed_state resumption.extract_file_write_paths stored_state) 0)
unfolding resume active_guard trim_space is_blank
resumes = refl

resume-Authorised_example :
    Authorised host resumption
      (trim_space " apr_1")
      0
      (run_loop host (resumed_state resumption.extract_file_write_paths stored_state) 0)
resume-Authorised_example =
    resume-Authorised host resumption " apr_1" 0
      (run_loop host (resumed_state resumption.extract_file_write_paths stored_state) 0) resumes
