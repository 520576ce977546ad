-- ===== src/Daemon/Denied.antt =====
-- A full queue, and a denial of a task that is queued to be resumed.
use mister_morph.Daemon.Resuming.{
  IsAlone, Visits, find_waiting-alone, find_waiting-mark, waits-there,
}
use mister_morph.Daemon.Types.{running, TaskInfo, QueuedTask, TaskStore}
use mister_morph.Daemon.Worker.{
  resumed, started_info, take_task, start_next, started_task, denied, taken, Daemon, happen,
}
use mister_morph.Daemon.Store.{
  enqueue_resume, requeue, mark, waits_for, waits_if, next_task, fail_found, fail_pending,
  fail_with, delete, has_room, change, enqueue, find_waiting,
}
use mister_morph.Base.{
  sym, is_blank, trim_space-trim_space, trim_space, ℕ, ◌≤◌, String, ◌≡◌, refl, ap, ◌∙◌, Bool, true,
  false, Option, none, some, List, [], ◌∷◌, ◌++◌, arith, ◌==◌, if◌then◌else◌, length,
}
use mathlib.Core.Path.{subst}
use mister_morph.Base.Json.{lookup}
use mister_morph.Base.Assoc.{put}
use mister_morph.Daemon.Maps.{delete-put, map_option}
use mister_morph.Daemon.Kept.{lookup-change_self}

some_injective : {A : Type 0} {a b : A} → ◌≡◌ {A = Option A} (some a) (some b) → a ≡ b
some_injective h = ground (arith, h)

abbrev snd_of : {A : Type 0} → A × TaskStore → TaskStore
snd_of r = r.1

-- A task with a new id that finds no room in the channel leaves the store as it was, and no task is
-- returned.
pub enqueue_full :
    (id : String) (qt : QueuedTask) (s : TaskStore)
    → lookup id (TaskStore.tasks s) ≡ none
    → TaskStore.max_queue s ≤ length (TaskStore.queue s)
    → enqueue id qt s ≡ (none, s)
unfolding enqueue
enqueue_full id qt s n full = by_room _ refl
  where
    by_room :
        (b : Bool)
        → has_room s ≡ b
        → ◌≡◌ {A = Option TaskInfo × TaskStore}
            (if b
              then (
                some (QueuedTask.info qt),
                record s {
                  tasks = put id qt (TaskStore.tasks s);
                  queue = TaskStore.queue s ++ (id ∷ []);
                },
              )
              else (none, record s { tasks = delete id (put id qt (TaskStore.tasks s)) }))
            (none, s)
    by_room true r = ground (arith, r, full)
    by_room false r =
        ap (λ m. (none, record s { tasks = m })) (delete-put id qt (TaskStore.tasks s) n)

denied_store :
    (order : List String) (a id : String) (t : ℕ) (s : TaskStore)
    → (trim_space a == "") ≡ false
    → find_waiting (trim_space a) (TaskStore.tasks s) order ≡ some id
    → (fail_pending order a "approval denied" t s).1 ≡ change id (fail_with "approval denied" t) s
unfolding fail_pending
denied_store order a id t s n f = by_blank _ _ n f
  where
    by_blank :
        (b : Bool) (o : Option String)
        → b ≡ false
        → o ≡ some id
        → snd_of (if b then (none, s) else fail_found o "approval denied" t s)
          ≡ change id (fail_with "approval denied" t) s
    by_blank true o n f = ground (arith, n)
    by_blank false none n f = ground (arith, f)
    by_blank false (some j) n f =
        ap (λ k. change k (fail_with "approval denied" t) s) (some_injective f)

-- The worker takes the head of the channel.
take_task_next :
    (now : ℕ) (id : String) (ids : List String) (d : Daemon)
    → Daemon.current d ≡ none
    → TaskStore.queue (Daemon.store d) ≡ id ∷ ids
    → take_task now d ≡ start_next now (some (id, record (Daemon.store d) { queue = ids })) d
unfolding take_task next_task
take_task_next now id ids d c q = rw (c, q) refl

-- A denial finds the task at the head of the channel, and the worker takes it all the same.
denied_then_taken :
    (order : List String) (a id : String) (ids : List String) (t now : ℕ) (d : Daemon)
    (qt : QueuedTask)
    → (trim_space a == "") ≡ false
    → Daemon.current d ≡ none
    → TaskStore.queue (Daemon.store d) ≡ id ∷ ids
    → find_waiting (trim_space a) (TaskStore.tasks (Daemon.store d)) order ≡ some id
    → lookup id (TaskStore.tasks (Daemon.store d)) ≡ some qt
    → (Daemon.current (happen (taken now) (happen (denied order a t) d)) ≡ some id)
      × (lookup id
            (TaskStore.tasks (Daemon.store (happen (taken now) (happen (denied order a t) d))))
          ≡ some (started_task now (fail_with "approval denied" t qt)))
unfolding happen
denied_then_taken order a id ids t now d qt n c q f e =
    let s : TaskStore = change id (fail_with "approval denied" t) (Daemon.store d) in
    let after : Daemon = record d { store = s } in
    let same =
      ap (λ x. take_task now (record d { store = x }))
        (denied_store order a id t (Daemon.store d) n f) in
    let taken_from = same ∙ take_task_next now id ids after c (unfold change in q) in
    (
      ap Daemon.current taken_from,
      ap (λ x. lookup id (TaskStore.tasks (Daemon.store x))) taken_from
          ∙ lookup-change_self id (started_task now) (record s { queue = ids })
          ∙ ap (map_option (started_task now)) (
              lookup-change_self id (fail_with "approval denied" t) (Daemon.store d)
              ∙ ap (map_option (fail_with "approval denied" t)) e),
    )

-- The worker runs the task, though it was denied at time `t`: its error, the time of its end and its
-- cancelled context say so.
pub record RunsDenied (id : String) (t now : ℕ) (d : Daemon) : Type 0 where
  pub task : QueuedTask
  pub is_current : Daemon.current d ≡ some id
  pub is_stored : lookup id (TaskStore.tasks (Daemon.store d)) ≡ some task
  pub is_running : TaskInfo.status (QueuedTask.info task) ≡ running
  pub was_resumed : TaskInfo.resumed_at (QueuedTask.info task) ≡ some now
  pub has_error : TaskInfo.error (QueuedTask.info task) ≡ "approval denied"
  pub has_ended : TaskInfo.finished_at (QueuedTask.info task) ≡ some t
  pub is_cancelled : QueuedTask.cancelled task ≡ true

started-RunsDenied :
    (a id : String) (t now : ℕ) (d : Daemon) (qt : QueuedTask)
    → (trim_space (trim_space a) == "") ≡ false
    → Daemon.current d ≡ some id
    → lookup id (TaskStore.tasks (Daemon.store d))
      ≡ some (started_task now (fail_with "approval denied" t (mark (trim_space a) qt)))
    → RunsDenied id t now d
unfolding started_task started_info trim_space
started-RunsDenied a id t now d qt n c e = record {
  task = started_task now (fail_with "approval denied" t (mark (trim_space a) qt));
  is_current = c;
  is_stored = e;
  is_running = refl;
  was_resumed = rw n refl;
  has_error = refl;
  has_ended = refl;
  is_cancelled = refl;
}

-- The resume of a task that waits and is not marked yet
resumed_store :
    (order : List String) (a id : String) (s : TaskStore) (qt : QueuedTask)
    → (trim_space a == "") ≡ false
    → find_waiting (trim_space a) (TaskStore.tasks s) order ≡ some id
    → lookup id (TaskStore.tasks s) ≡ some qt
    → is_blank (QueuedTask.resume_approval_id qt) ≡ true
    → has_room s ≡ true
    → (enqueue_resume order a s).1
      ≡ record (change id (mark (trim_space a)) s) { queue = TaskStore.queue s ++ (id ∷ []) }
unfolding enqueue_resume
resumed_store order a id s qt n f e b r =
    rw (n, f) (ap (λ o. (requeue (trim_space a) id o s).1) e ∙ unfold requeue in rw (b, r) refl)

-- A task waits for an approval alone, is not marked yet, and the worker and its channel are idle. When
-- EnqueueResumeByApprovalID queues the task, the approval is then denied, and the worker takes its next
-- task, all with loops that visit the whole map, it runs the denied task: the status is running, with
-- the error and the end of the denial, and its context is cancelled.
pub denied_task_runs :
    (order again : List String) (a id : String) (t now : ℕ) (d : Daemon) (qt : QueuedTask)
    → (trim_space a == "") ≡ false
    → Daemon.current d ≡ none
    → TaskStore.queue (Daemon.store d) ≡ []
    → has_room (Daemon.store d) ≡ true
    → lookup id (TaskStore.tasks (Daemon.store d)) ≡ some qt
    → waits_for (trim_space a) qt ≡ true
    → is_blank (QueuedTask.resume_approval_id qt) ≡ true
    → IsAlone (trim_space a) (Daemon.store d)
    → Visits order (Daemon.store d)
    → Visits again (Daemon.store d)
    → RunsDenied id t now
        (happen (taken now) (happen (denied again a t) (happen (resumed order a) d)))
denied_task_runs order again a id t now d qt n c q r e w b alone visits visits_again =
    let m = trim_space a in
    let s = Daemon.store d in
    let waiting : waits_if m (lookup id (TaskStore.tasks s)) ≡ true = ap (waits_if m) e ∙ w in
    let there = waits-there m _ waiting in
    let s1 : TaskStore = record (change id (mark m) s) { queue = TaskStore.queue s ++ (id ∷ []) } in
    let d1 : Daemon = record d { store = s1 } in
    let resumed_to : happen (resumed order a) d ≡ d1 =
      unfold happen in
      ap (λ x. record d { store = x })
        (resumed_store order a id s qt n
          (find_waiting-alone m id s order alone waiting (visits id there)) e b r) in
    let (is_current, stored) =
      denied_then_taken again a id [] t now d1 (mark m qt) n c (ap (λ l. l ++ (id ∷ [])) q)
        (find_waiting-mark m m id s again
          ∙ find_waiting-alone m id s again alone waiting (visits_again id there))
        (lookup-change_self id (mark m) s ∙ ap (map_option (mark m)) e) in
    subst (λ x. RunsDenied id t now (happen (taken now) (happen (denied again a t) x)))
      (sym resumed_to)
      (started-RunsDenied a id t now _ qt (ap (λ x. x == "") (trim_space-trim_space a) ∙ n)
        is_current stored)
