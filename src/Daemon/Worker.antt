-- ===== src/Daemon/Worker.antt =====
-- The worker of cmd/mistermorph/daemoncmd/serve.go, and the operations that run beside it. What a run
-- of the agent comes to is given; results and logs are left out.
use mister_morph.Daemon.Types.{
  done, failed, canceled, running, pending, TaskStore, TaskInfo, QueuedTask,
}
use mister_morph.Daemon.Store.{fail_pending, enqueue_resume, new_task, enqueue, change, next_task}
use mister_morph.Base.{
  trim_space, to_lower, contains, ℕ, String, Bool, true, ◌||◌, Option, none, some, List, [], ◌∷◌,
  ◌==◌, if◌then◌else◌,
}
use mister_morph.Base.Json.{lookup}
use mister_morph.Heartbeat.{HeartbeatState, end_failure, end_success}

-- The store, the task that the worker runs, and the state of the heartbeat.
pub record Daemon : Type 0 where
  pub store : TaskStore
  pub current : Option String
  pub heartbeat : HeartbeatState

-- What a run comes to: it waits for an approval, it ends with an error and its context is done or
-- not, or it ends well.
pub data Outcome : Type 0 where
  awaits : String → Outcome
  fails : String → Bool → Outcome
  succeeds : Outcome

-- The change of a task that is taken from the queue
unfoldable pub started_info : String → ℕ → TaskInfo → TaskInfo
started_info resume now info = record info {
  status = running;
  pending_at = none;
  resumed_at = if resume == "" then TaskInfo.resumed_at info else some now;
  started_at =
      if resume == ""
      then some (elim (TaskInfo.started_at info) [ some t ↦ t | none ↦ now ])
      else TaskInfo.started_at info;
}

-- The task as the worker leaves it before the run
unfoldable pub started_task : ℕ → QueuedTask → QueuedTask
unfolding started_info
started_task now qt =
    let resume = trim_space (QueuedTask.resume_approval_id qt) in
    record qt {
      info = started_info resume now (QueuedTask.info qt);
      resume_approval_id = if resume == "" then QueuedTask.resume_approval_id qt else "";
    }

abbrev pub start_next : ℕ → Option (String × TaskStore) → Daemon → Daemon
start_next now none d = d
start_next now (some (id, s)) d = record d {
  store = change id (started_task now) s;
  current = some id;
}

-- The worker takes the next task, when it runs none.
unfoldable pub take_task : ℕ → Daemon → Daemon
unfolding next_task change started_task
take_task now d = elim (Daemon.current d) [
  | some id ↦ d
  | none ↦ start_next now (next_task (Daemon.store d)) d
]

-- errorsIsContextDeadline
unfoldable pub is_context_deadline : Bool → String → Bool
is_context_deadline ctx_done message =
    ctx_done || contains (to_lower message) "context deadline exceeded"

-- The task after its run
unfoldable pub ended_task : ℕ → Outcome → QueuedTask → QueuedTask
unfolding is_context_deadline
ended_task now (awaits approval_id) qt = record qt {
  info = record (QueuedTask.info qt) {
    status = pending;
    pending_at = some now;
    approval_request_id = approval_id;
  };
}
ended_task now (fails message ctx_done) qt = record qt {
  info = record (QueuedTask.info qt) {
    status = if is_context_deadline ctx_done message then canceled else failed;
    error = message;
    finished_at = some now;
  };
  cancelled = true;
}
ended_task now succeeds qt = record qt {
  info = record (QueuedTask.info qt) { status = done; finished_at = some now };
  cancelled = true;
}

-- The calls on the state of the heartbeat
unfoldable pub end_heartbeat : ℕ → Outcome → HeartbeatState → HeartbeatState
end_heartbeat now (awaits approval_id) h = (end_failure (some "heartbeat pending approval") h).1
end_heartbeat now (fails message ctx_done) h = (end_failure (some message) h).1
end_heartbeat now succeeds h = end_success now h

abbrev pub heartbeat_after : ℕ → Outcome → Option QueuedTask → HeartbeatState → HeartbeatState
heartbeat_after now outcome none h = h
heartbeat_after now outcome (some qt) h =
    if QueuedTask.is_heartbeat qt then end_heartbeat now outcome h else h

-- The worker after the run of its task
unfoldable pub end_task : ℕ → Outcome → Daemon → Daemon
unfolding change ended_task end_heartbeat
end_task now outcome d = elim (Daemon.current d) [
  | none ↦ d
  | some id ↦ record {
    store = change id (ended_task now outcome) (Daemon.store d);
    current = none;
    heartbeat =
        heartbeat_after now outcome (lookup id (TaskStore.tasks (Daemon.store d)))
          (Daemon.heartbeat d);
  }
]

-- What can happen: a task is submitted under a new id, an approved task is resumed, a waiting task is
-- denied, the worker takes a task, and its run ends. The lists are the orders of the loops over the map.
pub data Event : Type 0 where
  submitted : String → String → String → ℕ → Bool → Event
  resumed : List String → String → Event
  denied : List String → String → ℕ → Event
  taken : ℕ → Event
  ended : ℕ → Outcome → Event

unfoldable pub happen : Event → Daemon → Daemon
unfolding enqueue new_task enqueue_resume fail_pending take_task end_task
happen (submitted id task model now is_heartbeat) d = record d {
  store = (enqueue id (new_task id task model now is_heartbeat) (Daemon.store d)).1;
}
happen (resumed order approval_id) d = record d {
  store = (enqueue_resume order approval_id (Daemon.store d)).1;
}
happen (denied order approval_id now) d = record d {
  store = (fail_pending order approval_id "approval denied" now (Daemon.store d)).1;
}
happen (taken now) d = take_task now d
happen (ended now outcome) d = end_task now outcome d

unfoldable pub happen_all : List Event → Daemon → Daemon
unfolding happen
happen_all [] d = d
happen_all (event ∷ events) d = happen_all events (happen event d)
