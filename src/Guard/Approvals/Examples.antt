-- ===== src/Guard/Approvals/Examples.antt =====
-- Runs of the approval store of guard/approvals.go and guard/approvals_file.go on one record.
use mister_morph.Base.{
  trim_space, ◌≡◌, refl, ◌⊎◌, none, some, List, [], ◌∷◌, ◌==◌, if◌then◌else◌, All,
}
use mister_morph.Base.Json.{lookup}
use mister_morph.Guard.Approvals.{
  ApprovalStatus, ApprovalRecord, Disk, Faults, prepared, create, resolved, resolve,
}
use mister_morph.Base.Assoc.{put}
use mister_morph.Guard.Approvals.History.{
  perform, Operation, resolution_of, perform_all, Leaves, Decided, stored-perform_all,
}
use mister_morph.Guard.Types.{ActionType, RiskLevel, Decision}
use mister_morph.Guard.Approvals.Laws.{stored, is_ok, stored-create, stored-resolve, Resolves}

abbrev no_faults : Faults
no_faults = record { lock = none; read = none; write = none }

abbrev request : ApprovalRecord
request = record {
  id = "";
  run_id = "r1";
  created_at = 0;
  expires_at = 0;
  resolved_at = none;
  status = ApprovalStatus.expired;
  actor = "";
  comment = "";
  action_type = ActionType.tool_call_pre;
  tool_name = "bash";
  action_hash = "h";
  risk_level = RiskLevel.high;
  decision = Decision.require_approval;
  reasons = [];
  action_summary_redacted = "bash";
  resume_state = "{}";
}

abbrev asked : ApprovalRecord
asked = prepared 7 "apr_1" request

stored-create_example : stored (create no_faults 7 "apr_1" request none).1 "apr_1" ≡ (
    if is_ok (create no_faults 7 "apr_1" request none).0
    then (if asked.id == "apr_1" then some asked else stored none "apr_1")
    else stored none "apr_1")
stored-create_example = stored-create no_faults 7 "apr_1" request none "apr_1"

abbrev one : Disk
one = some (record { version = 1; records = ("apr_1", asked) ∷ [] })

stored-resolve_example :
    Resolves no_faults 9
      (trim_space " apr_1 ")
      ApprovalStatus.approved
      "me"
      ""
      one
      "apr_1"
      (resolve no_faults 9 " apr_1 " ApprovalStatus.approved "me" "" one)
stored-resolve_example =
    stored-resolve no_faults 9 " apr_1 " ApprovalStatus.approved "me" "" one "apr_1"

abbrev calls : List Operation
calls =
    resolution_of no_faults 9 "apr_1" ApprovalStatus.denied "me" "no"
    ∷ resolution_of no_faults 10 "apr_1" ApprovalStatus.approved "you" "yes"
    ∷ []

stored-one : stored one "apr_1" ≡ some asked
unfolding stored lookup
stored-one = refl

calls-leave_alone : All (Leaves "apr_1") calls
unfolding Leaves
calls-leave_alone = (tt, (tt, tt))

stored-perform_all_example :
    (stored (perform_all calls one) "apr_1" ≡ some asked)
    ⊎ ((rec' : ApprovalRecord) × (stored (perform_all calls one) "apr_1" ≡ some rec')
        × Decided "apr_1" asked calls rec')
stored-perform_all_example = stored-perform_all "apr_1" asked calls one calls-leave_alone stored-one

-- The first decision stands.
first_decision :
    stored (perform_all calls one) "apr_1" ≡ some (resolved 9 ApprovalStatus.denied "me" "no" asked)
unfolding stored perform_all prepared resolved perform resolve trim_space lookup put
first_decision = refl
