-- ===== src/Daemon/Resuming.antt =====
-- A task that waits for an approval is queued once.
use mister_morph.Daemon.Store.{
  missing_approval_id, queue_full, ResumeError, waits_for, requeue, requeue_found, has_room,
  waits_if, already_queued, mark, change, find_waiting, enqueue_resume,
}
use mister_morph.Daemon.Types.{TaskInfo, QueuedTask, TaskStore}
use mister_morph.Base.{
  is_blank, eq_iff, trim_space, trim_space-trim_space, String, ◌≡◌, refl, ap, ◌∙◌, inl, inr, Bool,
  true, false, not, Option, none, some, List, [], ◌∷◌, ◌++◌, arith, ◌==◌, if◌then◌else◌, Bool-cases,
  Any, ◌≢◌,
}
use mister_morph.Base.Result.{Except, ok, err}
use mister_morph.Base.Json.{lookup}
use mister_morph.Daemon.Maps.{lookup-change, map_option, find_waiting-waits}
use mister_morph.Daemon.Kept.{lookup-change_self}

-- A mark does not change what a task waits for.
waits-mark :
    (a b id j : String) (s : TaskStore)
    → waits_if a (lookup j (TaskStore.tasks (change id (mark b) s)))
      ≡ waits_if a (lookup j (TaskStore.tasks s))
waits-mark a b id j s = elim (Bool-cases (id == j)) [
  | inl e ↦
      ap (waits_if a) (changed e)
      ∙ mark-waits _
      ∙ ap (λ k. waits_if a (lookup k (TaskStore.tasks s))) ((eq_iff id j).0 e)
  | inr e ↦ ap (waits_if a) (kept e)
]
  where
    changed :
        (id == j) ≡ true
        → lookup j (TaskStore.tasks (change id (mark b) s))
          ≡ map_option (mark b) (lookup id (TaskStore.tasks s))
    changed e = ground (arith, e, lookup-change j id (mark b) s)

    kept :
        (id == j) ≡ false
        → lookup j (TaskStore.tasks (change id (mark b) s)) ≡ lookup j (TaskStore.tasks s)
    kept e = ground (arith, e, lookup-change j id (mark b) s)

    mark-waits : (o : Option QueuedTask) → waits_if a (map_option (mark b) o) ≡ waits_if a o
    mark-waits none = refl
    mark-waits (some qt) = unfold waits_for in refl

pub find_waiting-mark :
    (a b id : String) (s : TaskStore) (ids : List String)
    → find_waiting a (TaskStore.tasks (change id (mark b) s)) ids
      ≡ find_waiting a (TaskStore.tasks s) ids
unfolding find_waiting
find_waiting-mark a b id s [] = refl
find_waiting-mark a b id s (j ∷ ids) =
    rw (waits-mark a b id j s, find_waiting-mark a b id s ids) refl

-- The loop visits every task of the map.
abbrev pub Visits : List String → TaskStore → Type 0
Visits order s = (k : String) → lookup k (TaskStore.tasks s) ≢ none → Any (λ j. j ≡ k) order

-- At most one task waits for the approval.
abbrev pub IsAlone : String → TaskStore → Type 0
IsAlone a s =
    (j k : String)
    → waits_if a (lookup j (TaskStore.tasks s)) ≡ true
    → waits_if a (lookup k (TaskStore.tasks s)) ≡ true
    → j ≡ k

pub waits-there : (a : String) (o : Option QueuedTask) → waits_if a o ≡ true → o ≢ none
waits-there a none h e = ground (arith, h)
waits-there a (some qt) h e = ground (arith, e)

-- Every loop finds the only task that waits.
pub find_waiting-alone :
    (a k : String) (s : TaskStore) (order : List String)
    → IsAlone a s
    → waits_if a (lookup k (TaskStore.tasks s)) ≡ true
    → Any (λ j. j ≡ k) order
    → find_waiting a (TaskStore.tasks s) order ≡ some k
unfolding find_waiting
find_waiting-alone a k s [] alone w v = absurd v
find_waiting-alone a k s (j ∷ order) alone w v =
    elim (Bool-cases (waits_if a (lookup j (TaskStore.tasks s)))) [
      | inl b ↦ rw b (ap some (alone j k b w))
      | inr b ↦ rw b (find_waiting-alone a k s order alone w (later b v))
    ]
  where
    later :
        waits_if a (lookup j (TaskStore.tasks s)) ≡ false
        → Any (λ i. i ≡ k) (j ∷ order)
        → Any (λ i. i ≡ k) order
    later b (inl e) =
        absurd (ground (arith, b, w, ap (λ i. waits_if a (lookup i (TaskStore.tasks s))) e))
    later b (inr v) = v

-- A call for the approval is refused, and changes nothing.
unfoldable IsRefused : List String → String → TaskStore → Type 0
IsRefused again t s =
    requeue_found t (find_waiting t (TaskStore.tasks s) again) s ≡ (err already_queued, s)

abbrev OkThenRefused :
    List String → String → String → Except ResumeError String × TaskStore → Type 0
OkThenRefused again t id r = r.0 ≡ ok id → IsRefused again t r.1

module _ (again : List String) (t : String) (s : TaskStore) (not_blank : is_blank t ≡ false)
    (alone : IsAlone t s) (visits : Visits again s) where
  second_call :
      (id : String) (qt : QueuedTask) (ids : List String)
      → waits_if t (lookup id (TaskStore.tasks s)) ≡ true
      → lookup id (TaskStore.tasks s) ≡ some qt
      → IsRefused again t (record (change id (mark t) s) { queue = ids })
  unfolding requeue IsRefused
  second_call id qt ids w e =
      let s1 : TaskStore = record (change id (mark t) s) { queue = ids } in
      let found : find_waiting t (TaskStore.tasks s1) again ≡ some id =
        find_waiting-mark t t id s again
        ∙ find_waiting-alone t id s again alone w (visits id (waits-there t _ w)) in
      let marked : lookup id (TaskStore.tasks s1) ≡ some (mark t qt) =
        lookup-change_self id (mark t) s ∙ ap (map_option (mark t)) e in
      rw (found, marked, not_blank) refl

  requeue-IsRefused :
      (id k : String) (o : Option QueuedTask)
      → waits_if t (lookup k (TaskStore.tasks s)) ≡ true
      → lookup k (TaskStore.tasks s) ≡ o
      → OkThenRefused again t id (requeue t k o s)
  unfolding requeue
  requeue-IsRefused id k none w e h = ground (arith, h)
  requeue-IsRefused id k (some qt) w e h =
      by_tests (not (is_blank (QueuedTask.resume_approval_id qt))) (has_room s) h
    where
      by_tests :
          (b c : Bool)
          → OkThenRefused again t id (
              if b
              then (err already_queued, s)
              else if c
              then (
                ok (TaskInfo.id (QueuedTask.info qt)),
                record (change k (mark t) s) { queue = TaskStore.queue s ++ (k ∷ []) },
              )
              else (err queue_full, change k (mark "") s))
      by_tests true c h = ground (arith, h)
      by_tests false true h = second_call k qt (TaskStore.queue s ++ (k ∷ [])) w e
      by_tests false false h = ground (arith, h)

  requeue_found-IsRefused :
      (order : List String) (id : String) (o : Option String)
      → find_waiting t (TaskStore.tasks s) order ≡ o
      → OkThenRefused again t id (requeue_found t o s)
  requeue_found-IsRefused order id none f h = ground (arith, h)
  requeue_found-IsRefused order id (some k) f h =
      requeue-IsRefused id k _ (find_waiting-waits t (TaskStore.tasks s) order k f) refl h

-- When at most one task waits for an approval and EnqueueResumeByApprovalID has queued it, a second
-- call for the same approval, in any order of the map, is refused because a task is already queued,
-- and changes nothing.
pub enqueue_resume_twice :
    (order again : List String) (a id : String) (s : TaskStore)
    → IsAlone (trim_space a) s
    → Visits again s
    → (enqueue_resume order a s).0 ≡ ok id
    → enqueue_resume again a ((enqueue_resume order a s).1)
      ≡ (err already_queued, (enqueue_resume order a s).1)
unfolding enqueue_resume
enqueue_resume_twice order again a id s alone visits = by_blank (trim_space a == "") refl
  where
    not_blank : (trim_space a == "") ≡ false → is_blank (trim_space a) ≡ false
    not_blank n = unfold is_blank in rw (trim_space-trim_space a) n

    call : Bool → Except ResumeError String × TaskStore
    call b =
        if b
        then (err missing_approval_id, s)
        else requeue_found (trim_space a) (find_waiting (trim_space a) (TaskStore.tasks s) order) s

    by_blank :
        (b : Bool)
        → (trim_space a == "") ≡ b
        → (call b).0 ≡ ok id
        → ◌≡◌ {A = Except ResumeError String × TaskStore}
            (if b
              then (err missing_approval_id, (call b).1)
              else requeue_found
                  (trim_space a)
                  (find_waiting (trim_space a) (TaskStore.tasks (call b).1) again)
                  (call b).1)
            (err already_queued, (call b).1)
    by_blank true n h = ground (arith, h)
    by_blank false n h =
        unfold IsRefused in
        requeue_found-IsRefused again (trim_space a) s (not_blank n) alone visits order id _ refl h
