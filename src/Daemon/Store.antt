-- ===== src/Daemon/Store.antt =====
-- TaskStore of cmd/mistermorph/daemoncmd/daemon_queue.go, each operation as one step. Go leaves open in
-- which order a loop over the map visits the keys, so the order is an argument of the operation.
use mister_morph.Daemon.Types.{is_pending, failed, queued, TaskStore, QueuedTask, TaskInfo}
use mister_morph.Base.{
  trim_space, is_blank, ℕ, zero, suc, String, Bool, true, false, not, ◌&&◌, Option, none, some,
  List, [], ◌∷◌, ◌++◌, ◌==◌, ltb, if◌then◌else◌, length,
}
use mister_morph.Base.Result.{Except, ok, err}
use mister_morph.Base.Json.{lookup}
use mister_morph.Base.Assoc.{put}

-- NewTaskStore; a limit of 0 or less is 100.
unfoldable pub new_task_store : ℕ → TaskStore
new_task_store zero = record { tasks = []; queue = []; max_queue = 100 }
new_task_store (suc n) = record { tasks = []; queue = []; max_queue = suc n }

-- delete(m, key)
unfoldable pub delete {ℓ} : {V : Type ℓ} → String → List (String × V) → List (String × V)
delete k [] = []
delete k ((j, v) ∷ m) = let rest = delete k m in if j == k then rest else (j, v) ∷ rest

-- The task that enqueue makes, with a new id
unfoldable pub new_task : String → String → String → ℕ → Bool → QueuedTask
new_task id task model now is_heartbeat = record {
  info = record {
    id = id;
    status = queued;
    task = task;
    model = if model == "" then "gpt-5.2" else model;
    created_at = now;
    started_at = none;
    pending_at = none;
    resumed_at = none;
    finished_at = none;
    approval_request_id = "";
    error = "";
  };
  cancelled = false;
  resume_approval_id = "";
  is_heartbeat = is_heartbeat;
}

-- The channel has room for one more task.
abbrev pub has_room : TaskStore → Bool
has_room s = ltb (length (TaskStore.queue s)) (TaskStore.max_queue s)

-- enqueue, with the id that the random number gives; without a task the queue is full.
unfoldable pub enqueue : String → QueuedTask → TaskStore → Option TaskInfo × TaskStore
unfolding delete
enqueue id qt s =
    let tasks = put id qt (TaskStore.tasks s) in
    if has_room s
    then (
      some (QueuedTask.info qt),
      record s { tasks = tasks; queue = TaskStore.queue s ++ (id ∷ []) },
    )
    else (none, record s { tasks = delete id tasks })

abbrev info_of : Option QueuedTask → Option TaskInfo
info_of none = none
info_of (some qt) = some (QueuedTask.info qt)

unfoldable pub get_task : String → TaskStore → Option TaskInfo
get_task id s = info_of (lookup id (TaskStore.tasks s))

-- Next, when the channel has a task
unfoldable pub next_task : TaskStore → Option (String × TaskStore)
next_task s = elim (TaskStore.queue s) [
  | [] ↦ none
  | id ∷ ids ↦ some (id, record s { queue = ids })
]

abbrev pub put_over :
    Option QueuedTask
    → String
    → (QueuedTask → QueuedTask)
    → List (String × QueuedTask)
    → List (String × QueuedTask)
put_over none id f tasks = tasks
put_over (some qt) id f tasks = put id (f qt) tasks

-- A change of the task with an id, if there is one
unfoldable pub change : String → (QueuedTask → QueuedTask) → TaskStore → TaskStore
change id f s = record s {
  tasks = put_over (lookup id (TaskStore.tasks s)) id f (TaskStore.tasks s);
}

-- Update
unfoldable pub update : String → (TaskInfo → TaskInfo) → TaskStore → TaskStore
unfolding change
update id f s = change id (λ qt. record qt { info = f (QueuedTask.info qt) }) s

-- The tests of the loops over the map
unfoldable pub waits_for : String → QueuedTask → Bool
waits_for approval_id qt =
    trim_space (TaskInfo.approval_request_id (QueuedTask.info qt)) == approval_id
    && is_pending (TaskInfo.status (QueuedTask.info qt))

abbrev pub waits_if : String → Option QueuedTask → Bool
waits_if approval_id none = false
waits_if approval_id (some qt) = waits_for approval_id qt

-- The loop over the map, in an order of its keys: the first whose task waits for an approval
unfoldable pub find_waiting : String → List (String × QueuedTask) → List String → Option String
unfolding waits_for
find_waiting approval_id tasks [] = none
find_waiting approval_id tasks (id ∷ ids) =
    let rest = find_waiting approval_id tasks ids in
    if waits_if approval_id (lookup id tasks) then some id else rest

-- The errors of EnqueueResumeByApprovalID.
pub data ResumeError : Type 0 where
  missing_approval_id : ResumeError
  no_pending_task : ResumeError
  already_queued : ResumeError
  queue_full : ResumeError

abbrev pub mark : String → QueuedTask → QueuedTask
mark approval_id qt = record qt { resume_approval_id = approval_id }

-- The rest of EnqueueResumeByApprovalID, on the task that was found under a key
unfoldable pub requeue :
    String → String → Option QueuedTask → TaskStore → Except ResumeError String × TaskStore
unfolding change
requeue approval_id id none s = (err no_pending_task, s)
requeue approval_id id (some qt) s =
    if not (is_blank (QueuedTask.resume_approval_id qt))
    then (err already_queued, s)
    else if has_room s
    then (
      ok (TaskInfo.id (QueuedTask.info qt)),
      record (change id (mark approval_id) s) { queue = TaskStore.queue s ++ (id ∷ []) },
    )
    else (err queue_full, change id (mark "") s)

abbrev pub requeue_found :
    String → Option String → TaskStore → Except ResumeError String × TaskStore
requeue_found approval_id none s = (err no_pending_task, s)
requeue_found approval_id (some id) s = requeue approval_id id (lookup id (TaskStore.tasks s)) s

unfoldable pub enqueue_resume :
    List String → String → TaskStore → Except ResumeError String × TaskStore
unfolding requeue find_waiting
enqueue_resume order approval_id s =
    let a = trim_space approval_id in
    if a == ""
    then (err missing_approval_id, s)
    else requeue_found a (find_waiting a (TaskStore.tasks s) order) s

abbrev pub fail_with : String → ℕ → QueuedTask → QueuedTask
fail_with message now qt = record qt {
  info = record (QueuedTask.info qt) {
    status = failed;
    error = trim_space message;
    finished_at = some now;
  };
  cancelled = true;
}

abbrev id_of : Option TaskInfo → Option String
id_of none = none
id_of (some info) = some (TaskInfo.id info)

abbrev pub fail_found : Option String → String → ℕ → TaskStore → Option String × TaskStore
fail_found none message now s = (none, s)
fail_found (some id) message now s = (id_of (get_task id s), change id (fail_with message now) s)

-- FailPendingByApprovalID
unfoldable pub fail_pending :
    List String → String → String → ℕ → TaskStore → Option String × TaskStore
unfolding change find_waiting get_task
fail_pending order approval_id message now s =
    let a = trim_space approval_id in
    if a == ""
    then (none, s)
    else fail_found (find_waiting a (TaskStore.tasks s) order) message now s
