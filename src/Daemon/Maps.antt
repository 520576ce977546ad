-- ===== src/Daemon/Maps.antt =====
-- What the operations of the store do to the task under an id.
use mathlib.Core.Path.{subst}
use mister_morph.Daemon.Types.{TaskStore, QueuedTask}
use mister_morph.Daemon.Store.{put_over, waits_if, change, find_waiting, delete}
use mister_morph.Base.{
  String, ◌≡◌, refl, ap, inl, inr, true, Option, none, some, List, [], ◌∷◌, arith, ◌==◌, eq_iff,
  eq_refl, if◌then◌else◌, Bool-cases,
}
use mister_morph.Base.Json.{lookup}
use mister_morph.Base.Assoc.{put, lookup-put}

-- Removing what was put under a new key gives the map back.
pub delete-put {ℓ} :
    {V : Type ℓ} (k : String) (v : V) (m : List (String × V))
    → lookup k m ≡ none
    → delete k (put k v m) ≡ m
unfolding delete put lookup
delete-put k v [] h = rw (eq_refl k) refl
delete-put k v ((j, u) ∷ m) h = elim (Bool-cases (j == k)) [
  | inl b ↦ ground (arith, b, h)
  | inr b ↦ rw (b, b) (ap (λ l. (j, u) ∷ l) (delete-put k v m (ground (arith, b, h))))
]

abbrev pub map_option : (QueuedTask → QueuedTask) → Option QueuedTask → Option QueuedTask
map_option f none = none
map_option f (some qt) = some (f qt)

pub lookup-change :
    (j id : String) (f : QueuedTask → QueuedTask) (s : TaskStore)
    → lookup j (TaskStore.tasks (change id f s)) ≡ (
        if id == j
        then map_option f (lookup id (TaskStore.tasks s))
        else lookup j (TaskStore.tasks s))
unfolding change
lookup-change j id f s = by_found _ refl
  where
    by_found :
        (o : Option QueuedTask)
        → lookup id (TaskStore.tasks s) ≡ o
        → lookup j (put_over o id f (TaskStore.tasks s))
          ≡ (if id == j then map_option f o else lookup j (TaskStore.tasks s))
    by_found none e = ground (arith, e, eq_iff id j)
    by_found (some qt) e = lookup-put id j (f qt) (TaskStore.tasks s)

-- A task that is found waits for the approval.
pub find_waiting-waits :
    (a : String) (tasks : List (String × QueuedTask)) (ids : List String) (id : String)
    → find_waiting a tasks ids ≡ some id
    → waits_if a (lookup id tasks) ≡ true
unfolding find_waiting
find_waiting-waits a tasks [] id h = ground (arith, h)
find_waiting-waits a tasks (j ∷ ids) id h = elim (Bool-cases (waits_if a (lookup j tasks))) [
  | inl b ↦ subst (λ k. waits_if a (lookup k tasks) ≡ true) (ground (arith, b, h)) b
  | inr b ↦ find_waiting-waits a tasks ids id (ground (arith, b, h))
]
