-- ===== src/Daemon/Invariant.antt =====
-- The invariant of the daemon of cmd/mistermorph/daemoncmd, whatever happens.
use mister_morph.Daemon.Kept.{lookup-change_self, IsQueue-submit}
use mister_morph.Daemon.Store.{
  new_task, enqueue, delete, next_task, change, has_room, new_task_store,
}
use mister_morph.Daemon.Queue.{
  AreInLine, AreDistinct, AreInLine-change, NotIn-queue, IsQueue, IsInLine,
}
use mister_morph.Daemon.Types.{QueuedTask, TaskStore}
use mister_morph.Daemon.Worker.{
  start_next, heartbeat_after, ended_task, started_task, started_info, ended, taken, resumed,
  Outcome, denied, take_task, end_task, submitted, happen, happen_all, Daemon, Event,
}
use mister_morph.Base.{
  length, ◌≤◌, arith, ◌++◌, eq_iff, ◌==◌, if◌then◌else◌, trim_space, is_blank, ℕ, String, ◌≡◌, refl,
  sym, inl, inr, Bool, true, false, Option, none, some, List, [], ◌∷◌, Bool-cases, zero, suc,
}
use mathlib.Core.Path.{subst}
use mister_morph.Base.Json.{lookup}
use mister_morph.Base.Assoc.{put, lookup-put}
use mister_morph.Daemon.Maps.{delete-put, map_option}
use mister_morph.Daemon.Sound.{
  IsRun, RunsCurrent, KeepsCurrent, IsSound, IsFresh, AreFresh, IsRun-not_IsInLine, nothing_runs,
  resumed-IsSound, denied-IsSound,
}
use mister_morph.Heartbeat.{initial}

-- A task that is taken runs.
started-IsRun :
    (now : ℕ) (o : Option QueuedTask) → IsInLine o → IsRun (map_option (started_task now) o)
unfolding IsRun IsInLine started_task started_info
started-IsRun now none i = i
started-IsRun now (some qt) i = (refl, cleared (QueuedTask.resume_approval_id qt))
  where
    by_blank :
        (b : Bool) (t : String) → (trim_space t == "") ≡ b → is_blank (if b then t else "") ≡ true
    by_blank true t e = unfold is_blank in e
    by_blank false t e = unfold is_blank trim_space in refl

    cleared : (t : String) → is_blank (if trim_space t == "" then t else "") ≡ true
    cleared t = by_blank (trim_space t == "") t refl

start_next-IsSound :
    (now : ℕ) (d : Daemon) (ids : List String)
    → TaskStore.queue (Daemon.store d) ≡ ids
    → IsSound d
    → IsSound (
        start_next now
          (elim ids [ [] ↦ none | id ∷ more ↦ some (id, record (Daemon.store d) { queue = more }) ])
          d)
unfolding IsSound IsQueue change
start_next-IsSound now d [] e h = h
start_next-IsSound now d (id ∷ ids) e h =
    let s = Daemon.store d in
    let (room, distinct, line) =
      subst (λ q. (length q ≤ TaskStore.max_queue s) × AreDistinct q × AreInLine s q) e h.0 in
    let rest : TaskStore = record s { queue = ids } in
    (
      (
        omega (arith, room),
        distinct.1,
        AreInLine-change id (started_task now) rest ids distinct.0 line.1,
      ),
      subst IsRun (sym (lookup-change_self id (started_task now) rest))
          (started-IsRun now _ line.0),
    )

taken-IsSound : (now : ℕ) (d : Daemon) → IsSound d → IsSound (happen (taken now) d)
unfolding happen take_task next_task
taken-IsSound now d h = by_current (Daemon.current d)
  where
    by_current :
        (c : Option String)
        → IsSound (elim c [ some id ↦ d | none ↦ start_next now (next_task (Daemon.store d)) d ])
    by_current (some id) = h
    by_current none = start_next-IsSound now d (TaskStore.queue (Daemon.store d)) refl h

ended-IsSound :
    (now : ℕ) (outcome : Outcome) (d : Daemon) → IsSound d → IsSound (happen (ended now outcome) d)
unfolding happen end_task IsSound IsQueue change
ended-IsSound now outcome d h = by_current (Daemon.current d) refl
  where
    by_current :
        (c : Option String)
        → Daemon.current d ≡ c
        → IsSound (elim c [
          | none ↦ d
          | some id ↦ record {
            store = change id (ended_task now outcome) (Daemon.store d);
            current = none;
            heartbeat =
                heartbeat_after now outcome
                  (lookup id (TaskStore.tasks (Daemon.store d)))
                  (Daemon.heartbeat d);
          }
        ])
    by_current none e = h
    by_current (some id) e =
        let run : IsRun (lookup id (TaskStore.tasks (Daemon.store d))) =
          subst (λ c. RunsCurrent c (Daemon.store d)) e h.1 in
        let out =
          NotIn-queue id (Daemon.store d) (TaskStore.queue (Daemon.store d))
            (IsRun-not_IsInLine _ run) h.0.2 in
        (
          (
            h.0.0,
            h.0.1,
            AreInLine-change id (ended_task now outcome) (Daemon.store d)
                (TaskStore.queue (Daemon.store d)) out h.0.2,
          ),
          tt,
        )

enqueue-RunsCurrent :
    (id : String) (qt : QueuedTask) (s : TaskStore) (current : Option String)
    → lookup id (TaskStore.tasks s) ≡ none
    → RunsCurrent current s
    → RunsCurrent current ((enqueue id qt s).1)
unfolding enqueue
enqueue-RunsCurrent id qt s none n r = tt
enqueue-RunsCurrent id qt s (some c) n r = by_room (has_room s) (subst IsRun same r)
  where
    other : (id == c) ≡ false
    other = elim (Bool-cases (id == c)) [
      | inl b ↦ absurd (
          nothing_runs (
            subst IsRun n
              (subst (λ k. IsRun (lookup k (TaskStore.tasks s))) (sym ((eq_iff id c).0 b)) r)))
      | inr b ↦ b
    ]

    same : lookup c (TaskStore.tasks s) ≡ lookup c (put id qt (TaskStore.tasks s))
    same = ground (arith, other, lookup-put id c qt (TaskStore.tasks s))

    by_room :
        (b : Bool)
        → IsRun (lookup c (put id qt (TaskStore.tasks s)))
        → KeepsCurrent (some c) (
            if b
            then (
              some (QueuedTask.info qt),
              record s {
                tasks = put id qt (TaskStore.tasks s);
                queue = TaskStore.queue s ++ (id ∷ []);
              },
            )
            else (none, record s { tasks = delete id (put id qt (TaskStore.tasks s)) }))
    by_room true q = q
    by_room false q =
        subst (λ m. IsRun (lookup c m)) (sym (delete-put id qt (TaskStore.tasks s) n)) r

submitted-IsSound :
    (id task model : String) (now : ℕ) (is_heartbeat : Bool) (d : Daemon)
    → lookup id (TaskStore.tasks (Daemon.store d)) ≡ none
    → IsSound d
    → IsSound (happen (submitted id task model now is_heartbeat) d)
unfolding happen IsSound
submitted-IsSound id task model now is_heartbeat d n h =
    let qt = new_task id task model now is_heartbeat in
    (
      IsQueue-submit id qt (Daemon.store d) n new_in_line h.0,
      enqueue-RunsCurrent id qt (Daemon.store d) (Daemon.current d) n h.1,
    )
  where
    new_in_line : IsInLine (some (new_task id task model now is_heartbeat))
    new_in_line = unfold IsInLine new_task in inl refl

happen-IsSound :
    (event : Event) (d : Daemon) → IsFresh event d → IsSound d → IsSound (happen event d)
unfolding IsFresh
happen-IsSound (submitted id task model now is_heartbeat) d f h =
    submitted-IsSound id task model now is_heartbeat d f h
happen-IsSound (resumed order a) d f h = resumed-IsSound order a d h
happen-IsSound (denied order a now) d f h = denied-IsSound order a now d h
happen-IsSound (taken now) d f h = taken-IsSound now d h
happen-IsSound (ended now outcome) d f h = ended-IsSound now outcome d h

happen_all-IsSound :
    (events : List Event) (d : Daemon)
    → AreFresh events d
    → IsSound d
    → IsSound (happen_all events d)
unfolding happen_all AreFresh
happen_all-IsSound [] d f h = h
happen_all-IsSound (event ∷ events) d f h =
    happen_all-IsSound events (happen event d) f.1 (happen-IsSound event d f.0 h)

-- The daemon before anything happens, with a limit on the queue
unfoldable pub new_daemon : ℕ → Daemon
unfolding new_task_store
new_daemon max_queue = record {
  store = new_task_store max_queue;
  current = none;
  heartbeat = initial;
}

new_daemon-IsSound : (max_queue : ℕ) → IsSound (new_daemon max_queue)
unfolding new_daemon IsSound IsQueue
new_daemon-IsSound zero = ((omega arith, tt, tt), tt)
new_daemon-IsSound (suc n) = ((omega arith, tt, tt), tt)

-- As long as a submitted task has a new id, in every state that the daemon reaches the channel holds at
-- most as many tasks as it has room for, none twice, each one queued or marked to be resumed, and the
-- task that the worker runs is running and not marked.
pub reached-IsSound :
    (events : List Event) (max_queue : ℕ)
    → AreFresh events (new_daemon max_queue)
    → IsSound (happen_all events (new_daemon max_queue))
reached-IsSound events max_queue f =
    happen_all-IsSound events (new_daemon max_queue) f (new_daemon-IsSound max_queue)
