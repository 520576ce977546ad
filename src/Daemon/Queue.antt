-- ===== src/Daemon/Queue.antt =====
-- The invariant of the queue of cmd/mistermorph/daemoncmd.
use mister_morph.Daemon.Store.{waits_for, change}
use mathlib.Core.Path.{subst}
use mister_morph.Daemon.Types.{
  done, failed, canceled, running, is_pending, pending, TaskStatus, queued, TaskInfo, QueuedTask,
  TaskStore,
}
use mister_morph.Base.{
  is_blank, ◌≤◌, String, ◌≡◌, refl, sym, ap, ◌∙◌, ◌≢◌, ◌⊎◌, inl, inr, Bool, true, false, ◌&&◌,
  Option, none, some, List, [], ◌∷◌, ◌++◌, arith, ◌==◌, eq_iff, Bool-cases, length, All, All-snoc,
}
use mister_morph.Base.Json.{lookup}
use mister_morph.Daemon.Maps.{lookup-change, map_option}

-- The statuses of a task that is marked to be resumed
abbrev pub can_resume : TaskStatus → Bool
can_resume pending = true
can_resume failed = true
can_resume _ = false

-- A task in the channel is queued, or marked to be resumed and in a status that a resume can find.
unfoldable pub IsInLine : Option QueuedTask → Type 0
IsInLine none = ⊥
IsInLine (some qt) =
    (TaskInfo.status (QueuedTask.info qt) ≡ queued)
    ⊎ ((is_blank (QueuedTask.resume_approval_id qt) ≡ false)
        × (can_resume (TaskInfo.status (QueuedTask.info qt)) ≡ true))

abbrev pub NotIn : String → List String → Type 0
NotIn id ids = All (λ j. j ≢ id) ids

abbrev pub AreDistinct : List String → Type 0
AreDistinct [] = Unit
AreDistinct (id ∷ ids) = NotIn id ids × AreDistinct ids

abbrev pub AreInLine : TaskStore → List String → Type 0
AreInLine s ids = All (λ id. IsInLine (lookup id (TaskStore.tasks s))) ids

unfoldable pub IsQueue : TaskStore → Type 0
IsQueue s =
    (length (TaskStore.queue s) ≤ TaskStore.max_queue s)
    × AreDistinct (TaskStore.queue s)
    × AreInLine s (TaskStore.queue s)

pub AreInLine-change :
    (id : String) (f : QueuedTask → QueuedTask) (s : TaskStore) (ids : List String)
    → NotIn id ids
    → AreInLine s ids
    → AreInLine (change id f s) ids
AreInLine-change id f s [] n h = tt
AreInLine-change id f s (j ∷ ids) n h = (
  subst IsInLine (ground (arith, n.0, eq_iff id j, lookup-change j id f s)) h.0,
  AreInLine-change id f s ids n.1 h.1,
)

-- A task that is not in line is not in the channel.
pub NotIn-queue :
    (id : String) (s : TaskStore) (ids : List String)
    → ¬ IsInLine (lookup id (TaskStore.tasks s))
    → AreInLine s ids
    → NotIn id ids
NotIn-queue id s [] n h = tt
NotIn-queue id s (j ∷ ids) n h = (
  λ e. n (subst (λ k. IsInLine (lookup k (TaskStore.tasks s))) e h.0),
  NotIn-queue id s ids n h.1,
)

pub distinct-snoc :
    (id : String) (ids : List String)
    → NotIn id ids
    → AreDistinct ids
    → AreDistinct (ids ++ (id ∷ []))
distinct-snoc id [] n h = (tt, tt)
distinct-snoc id (j ∷ ids) n h =
    (All-snoc (λ k. k ≢ j) ids id h.0 (λ e. n.0 (sym e)), distinct-snoc id ids n.1 h.1)

-- A task that waits for an approval is pending.
pub waits_for-pending :
    (a : String) (qt : QueuedTask)
    → waits_for a qt ≡ true
    → TaskInfo.status (QueuedTask.info qt) ≡ pending
unfolding waits_for
waits_for-pending a qt h = by_status _ (TaskInfo.status (QueuedTask.info qt)) h
  where
    by_status : (b : Bool) (t : TaskStatus) → (b && is_pending t) ≡ true → t ≡ pending
    by_status true pending h = refl
    by_status true queued h = ground (arith, h)
    by_status true running h = ground (arith, h)
    by_status true done h = ground (arith, h)
    by_status true failed h = ground (arith, h)
    by_status true canceled h = ground (arith, h)
    by_status false t h = ground (arith, h)

queued_not_pending : queued ≢ pending
queued_not_pending e = ground (arith, ap is_pending e)

-- A pending task is in line only if it is marked.
pub pending-marked :
    (a : String) (qt : QueuedTask)
    → waits_for a qt ≡ true
    → IsInLine (some qt)
    → is_blank (QueuedTask.resume_approval_id qt) ≡ false
unfolding IsInLine
pending-marked a qt h (inl q) = absurd (queued_not_pending (sym q ∙ waits_for-pending a qt h))
pending-marked a qt h (inr m) = m.0

pub change-IsInLine :
    (id : String) (f : QueuedTask → QueuedTask) (s : TaskStore) (ids : List String)
    → (IsInLine (lookup id (TaskStore.tasks s))
        → IsInLine (map_option f (lookup id (TaskStore.tasks s))))
    → AreInLine s ids
    → AreInLine (change id f s) ids
change-IsInLine id f s [] k h = tt
change-IsInLine id f s (j ∷ ids) k h =
    (one (Bool-cases (id == j)), change-IsInLine id f s ids k h.1)
  where
    one :
        ((id == j) ≡ true) ⊎ ((id == j) ≡ false)
        → IsInLine (lookup j (TaskStore.tasks (change id f s)))
    one (inl b) =
        subst IsInLine (ground (arith, b, lookup-change j id f s))
          (k (subst (λ x. IsInLine (lookup x (TaskStore.tasks s))) (sym ((eq_iff id j).0 b)) h.0))
    one (inr b) = subst IsInLine (ground (arith, b, lookup-change j id f s)) h.0
