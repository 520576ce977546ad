-- ===== src/Guard/Approvals.antt =====
-- guard/approvals.go and guard/approvals_file.go: the store of approval requests, a JSON file behind
-- a lock. The file is the state; what can go wrong with the lock and the file comes as faults. A write
-- is atomic (internal/fsstore): it replaces the file, or fails and leaves it.
pub mod Laws
pub mod History
mod Examples
use mister_morph.Base.{
  trim_space, ℕ, ◌+◌, String, Bool, true, false, Option, none, some, List, [], ◌==◌, nat_eq,
  if◌then◌else◌,
}
use mister_morph.Base.Json.{lookup}
use mister_morph.Base.Assoc.{put}
use mister_morph.Base.Result.{Except, ok, err}
use mister_morph.Guard.Types.{
  RiskLevel, Decision, ActionType, ApprovalStatus, pending, approved, denied, expired,
}

pub record ApprovalRecord : Type 0 where
  pub id : String
  pub run_id : String
  pub created_at : ℕ
  pub expires_at : ℕ
  pub resolved_at : Option ℕ
  pub status : ApprovalStatus
  pub actor : String
  pub comment : String
  pub action_type : ActionType
  pub tool_name : String
  pub action_hash : String
  pub risk_level : RiskLevel
  pub decision : Decision
  pub reasons : List String
  pub action_summary_redacted : String
  pub resume_state : String

pub record ApprovalFile : Type 0 where
  pub version : ℕ
  pub records : List (String × ApprovalRecord)

-- The file, if it is there.
abbrev pub Disk : Type 0
Disk = Option ApprovalFile

-- What fails during one call.
pub record Faults : Type 0 where
  pub lock : Option String
  pub read : Option String
  pub write : Option String

abbrev pub approvals_file_version : ℕ
approvals_file_version = 1

-- 5 * time.Minute, in nanoseconds
abbrev pub five_minutes : ℕ
five_minutes = 300_000_000_000

abbrev pub with_version : ApprovalFile → ApprovalFile
with_version f = if nat_eq f.version 0 then record f { version = approvals_file_version } else f

-- loadState, with what encoding/json decodes the file to; a file without records has an empty map.
unfoldable pub load_state : Faults → Disk → Except String ApprovalFile
load_state faults disk = elim faults.read [
  | some m ↦ err m
  | none ↦ elim disk [
    | none ↦ ok (record { version = approvals_file_version; records = [] })
    | some f ↦ ok (with_version f)
  ]
]

-- saveState
unfoldable pub save_state : Faults → ApprovalFile → Disk → Except String (Unit {0}) × Disk
save_state faults f disk = elim faults.write [
  | some m ↦ (err m, disk)
  | none ↦ (ok tt, some (with_version f))
]

-- fsstore.WithLock
pub with_lock :
    Faults → (Disk → Except String (Unit {0}) × Disk) → Disk → Except String (Unit {0}) × Disk
with_lock faults body disk = elim faults.lock [ some m ↦ (err m, disk) | none ↦ body disk ]

pub put_record : Faults → String → ApprovalRecord → Disk → Except String (Unit {0}) × Disk
unfolding load_state save_state
put_record faults id rec disk = elim (load_state faults disk) [
  | err m ↦ (err m, disk)
  | ok f ↦ save_state faults (record f { records = put id rec f.records }) disk
]

-- The record that Create stores; `fresh` is "apr_" and 24 random hexadecimal digits.
unfoldable pub prepared : ℕ → String → ApprovalRecord → ApprovalRecord
prepared now fresh rec =
    let id = trim_space rec.id in
    record rec {
      created_at = if nat_eq rec.created_at 0 then now else rec.created_at;
      expires_at = if nat_eq rec.expires_at 0 then now + five_minutes else rec.expires_at;
      status = pending;
      id = if id == "" then fresh else id;
    }

abbrev pub created : String → Except String (Unit {0}) × Disk → Except String String × Disk
created id (ok _, disk) = (ok id, disk)
created id (err m, disk) = (err m, disk)

-- Create
unfoldable pub create : Faults → ℕ → String → ApprovalRecord → Disk → Except String String × Disk
unfolding prepared with_lock put_record
create faults now fresh rec disk =
    let rec' = prepared now fresh rec in
    created rec'.id (with_lock faults (put_record faults rec'.id rec') disk)

-- Get
unfoldable pub get : Faults → String → Disk → Except String (Option ApprovalRecord)
unfolding load_state
get faults id disk = if trim_space id == "" then ok none else elim (load_state faults disk) [
  | err m ↦ err m
  | ok f ↦ ok (lookup (trim_space id) f.records)
]

abbrev pub is_decision : ApprovalStatus → Bool
is_decision approved = true
is_decision denied = true
is_decision pending = false
is_decision expired = false

abbrev pub is_pending : ApprovalStatus → Bool
is_pending pending = true
is_pending approved = false
is_pending denied = false
is_pending expired = false

unfoldable pub resolved : ℕ → ApprovalStatus → String → String → ApprovalRecord → ApprovalRecord
resolved now status actor comment rec = record rec {
  status = status;
  actor = trim_space actor;
  comment = trim_space comment;
  resolved_at = some now;
}

pub resolve_record :
    Faults → ℕ → String → ApprovalStatus → String → String → Disk → Except String (Unit {0}) × Disk
unfolding load_state resolved save_state
resolve_record faults now id status actor comment disk = elim (load_state faults disk) [
  | err m ↦ (err m, disk)
  | ok f ↦ elim (lookup id f.records) [
    | none ↦ (ok tt, disk)
    | some rec ↦
        if is_pending rec.status
        then save_state faults
            (record f { records = put id (resolved now status actor comment rec) f.records }) disk
        else (ok tt, disk)
  ]
]

-- Resolve
unfoldable pub resolve :
    Faults → ℕ → String → ApprovalStatus → String → String → Disk → Except String (Unit {0}) × Disk
unfolding with_lock resolve_record
resolve faults now id status actor comment disk =
    let key = trim_space id in
    if key == ""
    then (err "missing approval id", disk)
    else if is_decision status
    then with_lock faults (resolve_record faults now key status actor comment) disk
    else (err "invalid approval status", disk)
