-- ===== src/Daemon/Sound.antt =====
-- The sound states of the daemon of cmd/mistermorph/daemoncmd, and what approvals do to them.
use mister_morph.Base.Result.{ok, err}
use mister_morph.Daemon.Kept.{IsQueue-fail, IsQueue-requeue}
use mister_morph.Daemon.Store.{
  change, fail_with, mark, requeue, requeue_found, fail_found, find_waiting, has_room,
  already_queued, queue_full, waits_if, enqueue_resume, fail_pending,
}
use mister_morph.Daemon.Queue.{waits_for-pending, IsQueue, IsInLine}
use mister_morph.Daemon.Types.{pending, running, is_pending, TaskInfo, QueuedTask, TaskStore}
use mister_morph.Daemon.Worker.{resumed, denied, submitted, happen, Daemon, Event}
use mister_morph.Base.{
  arith, ◌++◌, eq_iff, ◌==◌, not, if◌then◌else◌, trim_space, is_blank, trim_space-trim_space, ℕ,
  String, ◌≡◌, refl, sym, ap, ◌∙◌, inl, inr, Bool, true, false, Option, none, some, List, [], ◌∷◌,
  Bool-cases,
}
use mathlib.Core.Path.{subst}
use mister_morph.Base.Json.{lookup}
use mister_morph.Daemon.Maps.{lookup-change, find_waiting-waits}

-- A task that the worker runs.
unfoldable pub IsRun : Option QueuedTask → Type 0
IsRun none = ⊥
IsRun (some qt) =
    (TaskInfo.status (QueuedTask.info qt) ≡ running)
    × (is_blank (QueuedTask.resume_approval_id qt) ≡ true)

abbrev pub RunsCurrent : Option String → TaskStore → Type 0
RunsCurrent none s = Unit
RunsCurrent (some id) s = IsRun (lookup id (TaskStore.tasks s))

-- The channel holds at most as many tasks as it has room for, none twice, each one queued or marked to
-- be resumed; and the task of the worker is running.
unfoldable pub IsSound : Daemon → Type 0
IsSound d = IsQueue (Daemon.store d) × RunsCurrent (Daemon.current d) (Daemon.store d)

-- A submitted task has a new id.
unfoldable pub IsFresh : Event → Daemon → Type 0
IsFresh (submitted id task model now is_heartbeat) d =
    lookup id (TaskStore.tasks (Daemon.store d)) ≡ none
IsFresh _ d = Unit

unfoldable pub AreFresh : List Event → Daemon → Type 0
unfolding IsFresh
AreFresh [] d = Unit
AreFresh (event ∷ events) d = IsFresh event d × AreFresh events (happen event d)

-- A running task is not in line.
pub IsRun-not_IsInLine : (o : Option QueuedTask) → IsRun o → ¬ IsInLine o
unfolding IsRun IsInLine
IsRun-not_IsInLine none r i = i
IsRun-not_IsInLine (some qt) r (inl q) = ground (arith, ap is_pending q, q, r.0)
IsRun-not_IsInLine (some qt) r (inr m) = ground (arith, m.0, r.1)

not_pending :
    (qt : QueuedTask) → IsRun (some qt) → TaskInfo.status (QueuedTask.info qt) ≡ pending → ⊥
unfolding IsRun
not_pending qt q e = ground (arith, ap is_pending (sym e ∙ q.0))

pub nothing_runs : IsRun none → ⊥
unfolding IsRun
nothing_runs r = r

-- A change of a task that waits for an approval leaves the task of the worker.
pub change-RunsCurrent :
    (a id : String) (f : QueuedTask → QueuedTask) (s : TaskStore) (current : Option String)
    → waits_if a (lookup id (TaskStore.tasks s)) ≡ true
    → RunsCurrent current s
    → RunsCurrent current (change id f s)
change-RunsCurrent a id f s none w r = tt
change-RunsCurrent a id f s (some c) w r = elim (Bool-cases (id == c)) [
  | inl b ↦
      absurd (
        not_both _ (subst (λ k. IsRun (lookup k (TaskStore.tasks s))) (sym ((eq_iff id c).0 b)) r)
          w)
  | inr b ↦ subst IsRun (ground (arith, b, lookup-change c id f s)) r
]
  where
    not_both : (o : Option QueuedTask) → IsRun o → waits_if a o ≡ true → ⊥
    not_both none q v = ground (arith, v)
    not_both (some qt) q v = not_pending qt q (waits_for-pending a qt v)

abbrev IsSoundStore : Option String → TaskStore → Type 0
IsSoundStore current s = IsQueue s × RunsCurrent current s

if-IsSoundStore :
    {A : Type 0} (current : Option String) (b : Bool) (x y : A × TaskStore)
    → IsSoundStore current x.1
    → (b ≡ false → IsSoundStore current y.1)
    → IsSoundStore current ((if b then x else y).1)
if-IsSoundStore current true x y h k = h
if-IsSoundStore current false x y h k = k refl

abbrev pub KeepsCurrent : {A : Type 0} → Option String → A × TaskStore → Type 0
KeepsCurrent current r = RunsCurrent current r.1

pushed-RunsCurrent :
    (current : Option String) (s : TaskStore) (ids : List String)
    → RunsCurrent current s
    → RunsCurrent current (record s { queue = ids })
pushed-RunsCurrent none s ids r = tt
pushed-RunsCurrent (some c) s ids r = r

requeue-RunsCurrent :
    (a id : String) (s : TaskStore) (current : Option String) (o : Option QueuedTask)
    → waits_if a (lookup id (TaskStore.tasks s)) ≡ true
    → RunsCurrent current s
    → RunsCurrent current ((requeue a id o s).1)
unfolding requeue
requeue-RunsCurrent a id s current none w r = r
requeue-RunsCurrent a id s current (some qt) w r =
    by_tests (not (is_blank (QueuedTask.resume_approval_id qt))) (has_room s)
      (change-RunsCurrent a id (mark a) s current w r)
      (change-RunsCurrent a id (mark "") s current w r)
  where
    by_tests :
        (b c : Bool)
        → RunsCurrent current (change id (mark a) s)
        → RunsCurrent current (change id (mark "") s)
        → KeepsCurrent current (
            if b
            then (err already_queued, s)
            else if c
            then (
              ok (TaskInfo.id (QueuedTask.info qt)),
              record (change id (mark a) s) { queue = TaskStore.queue s ++ (id ∷ []) },
            )
            else (err queue_full, change id (mark "") s))
    by_tests true c q v = r
    by_tests false true q v =
        pushed-RunsCurrent current (change id (mark a) s) (TaskStore.queue s ++ (id ∷ [])) q
    by_tests false false q v = v

pub resumed-IsSound :
    (order : List String) (a : String) (d : Daemon)
    → IsSound d
    → IsSound (happen (resumed order a) d)
unfolding happen enqueue_resume IsSound
resumed-IsSound order a d h =
    if-IsSoundStore (Daemon.current d) (trim_space a == "") _ _ h
      (λ n. by_found (trim_space a) _ refl (not_blank n))
  where
    not_blank : (trim_space a == "") ≡ false → is_blank (trim_space a) ≡ false
    not_blank n = unfold is_blank in rw (trim_space-trim_space a) n

    by_found :
        (t : String) (o : Option String)
        → find_waiting t (TaskStore.tasks (Daemon.store d)) order ≡ o
        → is_blank t ≡ false
        → IsSoundStore (Daemon.current d) ((requeue_found t o (Daemon.store d)).1)
    by_found t none e n = h
    by_found t (some id) e n =
        let w = find_waiting-waits t _ _ id e in
        (
          IsQueue-requeue t id (Daemon.store d) n w h.0,
          requeue-RunsCurrent t id (Daemon.store d) (Daemon.current d) _ w h.1,
        )

pub denied-IsSound :
    (order : List String) (a : String) (now : ℕ) (d : Daemon)
    → IsSound d
    → IsSound (happen (denied order a now) d)
unfolding happen fail_pending IsSound
denied-IsSound order a now d h =
    if-IsSoundStore (Daemon.current d) (trim_space a == "") _ _ h
      (λ n. by_found (trim_space a) _ refl)
  where
    by_found :
        (t : String) (o : Option String)
        → find_waiting t (TaskStore.tasks (Daemon.store d)) order ≡ o
        → IsSoundStore (Daemon.current d) ((fail_found o "approval denied" now (Daemon.store d)).1)
    by_found t none e = h
    by_found t (some id) e =
        let w = find_waiting-waits t _ _ id e in
        (
          IsQueue-fail t id "approval denied" now (Daemon.store d) w h.0,
          change-RunsCurrent t id (fail_with "approval denied" now) (Daemon.store d)
              (Daemon.current d) w h.1,
        )
