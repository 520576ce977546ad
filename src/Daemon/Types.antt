-- ===== src/Daemon/Types.antt =====
-- The data of cmd/mistermorph/daemoncmd/daemon_types.go and daemon_queue.go. Times are numbers; the
-- result of a task, its timeout and the meta of a heartbeat are left out.
use mister_morph.Base.{ℕ, String, Bool, true, false, Option, List}

pub data TaskStatus : Type 0 where
  queued running pending done failed canceled : TaskStatus

pub record TaskInfo : Type 0 where
  pub id : String
  pub status : TaskStatus
  pub task : String
  pub model : String
  pub created_at : ℕ
  pub started_at : Option ℕ
  pub pending_at : Option ℕ
  pub resumed_at : Option ℕ
  pub finished_at : Option ℕ
  pub approval_request_id : String
  pub error : String

-- A task of the store; its context is cancelled or not.
pub record QueuedTask : Type 0 where
  pub info : TaskInfo
  pub cancelled : Bool
  pub resume_approval_id : String
  pub is_heartbeat : Bool

-- The tasks by id, and the ids of the tasks in the channel, the next one first.
pub record TaskStore : Type 0 where
  pub tasks : List (String × QueuedTask)
  pub queue : List String
  pub max_queue : ℕ

abbrev pub is_pending : TaskStatus → Bool
is_pending pending = true
is_pending _ = false
