-- ===== src/Daemon/Kept.antt =====
-- The operations of cmd/mistermorph/daemoncmd/daemon_queue.go keep the invariant of the queue.
use mister_morph.Base.Result.{err, ok}
use mister_morph.Daemon.Queue.{
  can_resume, waits_for-pending, AreInLine-change, AreInLine, distinct-snoc, change-IsInLine,
  IsInLine, pending-marked, NotIn-queue, NotIn, IsQueue,
}
use mister_morph.Daemon.Types.{TaskInfo, TaskStore, QueuedTask}
use mister_morph.Daemon.Store.{
  waits_for, enqueue, delete, has_room, fail_with, already_queued, change, queue_full, mark,
  waits_if, requeue,
}
use mister_morph.Base.{
  eq_iff, not, is_blank, ℕ, ◌≤◌, String, ◌≡◌, refl, sym, ap, ◌∙◌, inr, Bool, true, false, Option,
  none, some, List, [], ◌∷◌, ◌++◌, arith, eq_refl, ltb, if◌then◌else◌, length, length-append, All,
  All-snoc,
}
use mathlib.Core.Path.{subst}
use mister_morph.Base.Json.{lookup}
use mister_morph.Base.Assoc.{lookup-put_self, put, lookup-put}
use mister_morph.Daemon.Maps.{delete-put, lookup-change, map_option}

abbrev KeepsQueue : {A : Type 0} → A × TaskStore → Type 0
KeepsQueue r = IsQueue r.1

pub lookup-change_self :
    (id : String) (f : QueuedTask → QueuedTask) (s : TaskStore)
    → lookup id (TaskStore.tasks (change id f s)) ≡ map_option f (lookup id (TaskStore.tasks s))
lookup-change_self id f s = ground (arith, eq_refl id, lookup-change id id f s)

room-length :
    (id : String) (s : TaskStore)
    → has_room s ≡ true
    → length (TaskStore.queue s ++ (id ∷ [])) ≤ TaskStore.max_queue s
room-length id s r = ground (arith, r, length-append (TaskStore.queue s) (id ∷ []))

pub IsQueue-requeue :
    (a id : String) (s : TaskStore)
    → is_blank a ≡ false
    → waits_if a (lookup id (TaskStore.tasks s)) ≡ true
    → IsQueue s
    → IsQueue ((requeue a id (lookup id (TaskStore.tasks s)) s).1)
unfolding requeue IsQueue change
IsQueue-requeue a id s n w h = by_task _ refl
  where
    notin :
        (qt : QueuedTask)
        → lookup id (TaskStore.tasks s) ≡ some qt
        → is_blank (QueuedTask.resume_approval_id qt) ≡ true
        → NotIn id (TaskStore.queue s)
    notin qt e b =
        NotIn-queue id s (TaskStore.queue s)
          (λ i.
            ground
              (arith, b, pending-marked a qt (ap (waits_if a) (sym e) ∙ w) (subst IsInLine e i)))
          h.2

    marked : (qt : QueuedTask) → waits_for a qt ≡ true → IsInLine (some (mark a qt))
    marked qt v = unfold IsInLine in inr (n, ap can_resume (waits_for-pending a qt v))

    added :
        (qt : QueuedTask)
        → lookup id (TaskStore.tasks s) ≡ some qt
        → NotIn id (TaskStore.queue s)
        → ltb (length (TaskStore.queue s)) (TaskStore.max_queue s) ≡ true
        → IsQueue (record (change id (mark a) s) { queue = TaskStore.queue s ++ (id ∷ []) })
    added qt e out room = (
      room-length id s room,
      distinct-snoc id (TaskStore.queue s) out h.1,
      All-snoc (λ j. IsInLine (lookup j (TaskStore.tasks (change id (mark a) s))))
          (TaskStore.queue s) id (AreInLine-change id (mark a) s (TaskStore.queue s) out h.2)
          (subst IsInLine (sym (lookup-change_self id (mark a) s ∙ ap (map_option (mark a)) e))
            (marked qt (ap (waits_if a) (sym e) ∙ w))),
    )

    by_room :
        (qt : QueuedTask) (b : Bool)
        → lookup id (TaskStore.tasks s) ≡ some qt
        → NotIn id (TaskStore.queue s)
        → ltb (length (TaskStore.queue s)) (TaskStore.max_queue s) ≡ b
        → KeepsQueue (
            if b
            then (
              ok (TaskInfo.id (QueuedTask.info qt)),
              record (change id (mark a) s) { queue = TaskStore.queue s ++ (id ∷ []) },
            )
            else (err queue_full, change id (mark "") s))
    by_room qt true e out r = added qt e out r
    by_room qt false e out r =
        (h.0, h.1, AreInLine-change id (mark "") s (TaskStore.queue s) out h.2)

    by_blank :
        (qt : QueuedTask) (b : Bool)
        → lookup id (TaskStore.tasks s) ≡ some qt
        → (b ≡ true → NotIn id (TaskStore.queue s))
        → KeepsQueue (
            if not b
            then (err already_queued, s)
            else if has_room s
            then (
              ok (TaskInfo.id (QueuedTask.info qt)),
              record (change id (mark a) s) { queue = TaskStore.queue s ++ (id ∷ []) },
            )
            else (err queue_full, change id (mark "") s))
    by_blank qt false e out = h
    by_blank qt true e out = by_room qt _ e (out refl) refl

    by_task :
        (o : Option QueuedTask) → lookup id (TaskStore.tasks s) ≡ o → IsQueue ((requeue a id o s).1)
    by_task none e = h
    by_task (some qt) e = by_blank qt (is_blank (QueuedTask.resume_approval_id qt)) e (notin qt e)

pub IsQueue-fail :
    (a id message : String) (now : ℕ) (s : TaskStore)
    → waits_if a (lookup id (TaskStore.tasks s)) ≡ true
    → IsQueue s
    → IsQueue (change id (fail_with message now) s)
unfolding IsQueue change
IsQueue-fail a id message now s w h =
    (h.0, h.1, change-IsInLine id (fail_with message now) s (TaskStore.queue s) (still _ w) h.2)
  where
    still :
        (o : Option QueuedTask)
        → waits_if a o ≡ true
        → IsInLine o
        → IsInLine (map_option (fail_with message now) o)
    still none w i = i
    still (some qt) w i = let m = pending-marked a qt w i in unfold IsInLine in inr (m, refl)

AreInLine-put :
    (id : String) (qt : QueuedTask) (s : TaskStore) (ids : List String)
    → NotIn id ids
    → AreInLine s ids
    → All (λ j. IsInLine (lookup j (put id qt (TaskStore.tasks s)))) ids
AreInLine-put id qt s [] n h = tt
AreInLine-put id qt s (j ∷ ids) n h = (
  subst IsInLine (ground (arith, n.0, eq_iff id j, lookup-put id j qt (TaskStore.tasks s))) h.0,
  AreInLine-put id qt s ids n.1 h.1,
)

none-not_IsInLine : ¬ IsInLine none
unfolding IsInLine
none-not_IsInLine i = i

pub IsQueue-submit :
    (id : String) (qt : QueuedTask) (s : TaskStore)
    → lookup id (TaskStore.tasks s) ≡ none
    → IsInLine (some qt)
    → IsQueue s
    → IsQueue ((enqueue id qt s).1)
unfolding enqueue IsQueue
IsQueue-submit id qt s n q h =
    by_room _ refl
      (NotIn-queue id s (TaskStore.queue s) (λ i. none-not_IsInLine (subst IsInLine n i)) h.2)
  where
    by_room :
        (b : Bool)
        → has_room s ≡ b
        → NotIn id (TaskStore.queue s)
        → KeepsQueue (
            if b
            then (
              some (QueuedTask.info qt),
              record s {
                tasks = put id qt (TaskStore.tasks s);
                queue = TaskStore.queue s ++ (id ∷ []);
              },
            )
            else (none, record s { tasks = delete id (put id qt (TaskStore.tasks s)) }))
    by_room true r out = (
      room-length id s r,
      distinct-snoc id (TaskStore.queue s) out h.1,
      All-snoc (λ j. IsInLine (lookup j (put id qt (TaskStore.tasks s)))) (TaskStore.queue s) id
          (AreInLine-put id qt s (TaskStore.queue s) out h.2)
          (subst IsInLine (sym (lookup-put_self id qt (TaskStore.tasks s))) q),
    )
    by_room false r out =
        subst (λ m. IsQueue (record s { tasks = m })) (sym (delete-put id qt (TaskStore.tasks s) n))
          h
