-- ===== src/Daemon/Examples.antt =====
-- A daemon with room for one task, and a task that is denied after it was queued to be resumed. An
-- order of the keys may have others, as of tasks that are gone.
use mister_morph.Daemon.Types.{pending, TaskStore, QueuedTask}
use mister_morph.Daemon.Worker.{
  resumed, awaits, denied, ended, taken, submitted, happen, Event, Daemon, happen_all,
}
use mister_morph.Daemon.Store.{already_queued, mark, enqueue_resume, enqueue, waits_if, waits_for}
use mister_morph.Base.{
  trim_space, is_blank, String, ◌≡◌, refl, false, none, some, List, [], ◌∷◌, arith, ◌==◌, eq_iff,
  Bool-cases, inl, inr, true, sym, ◌∙◌,
}
use mister_morph.Base.Result.{ok, err}
use mister_morph.Base.Json.{lookup}
use mister_morph.Base.Assoc.{put}
use mister_morph.Daemon.Sound.{IsSound, AreFresh}
use mister_morph.Daemon.Invariant.{new_daemon, reached-IsSound}
use mister_morph.Daemon.Denied.{enqueue_full, denied_task_runs, RunsDenied}
use mister_morph.Daemon.Resuming.{enqueue_resume_twice, Visits, IsAlone}

abbrev events : List Event
events =
    submitted "1" "report" "" 10 false
    ∷ taken 11
    ∷ ended 12 (awaits "apr_1")
    ∷ resumed ("1" ∷ []) " apr_1 "
    ∷ submitted "2" "clean" "gpt" 13 false
    ∷ []

events-AreFresh : AreFresh events (new_daemon 1)
unfolding AreFresh lookup new_daemon happen trim_space put is_blank
events-AreFresh = (refl, (tt, (tt, (tt, (refl, tt)))))

reached-IsSound_example : IsSound (happen_all events (new_daemon 1))
reached-IsSound_example = reached-IsSound events 1 events-AreFresh

abbrev waiting_task : QueuedTask
waiting_task = record {
  info = record {
    id = "1";
    status = pending;
    task = "report";
    model = "gpt-5.2";
    created_at = 10;
    started_at = some 11;
    pending_at = some 12;
    resumed_at = none;
    finished_at = none;
    approval_request_id = "apr_1";
    error = "";
  };
  cancelled = false;
  resume_approval_id = "";
  is_heartbeat = false;
}

abbrev store_of : QueuedTask → List String → TaskStore
store_of qt ids = record { tasks = ("1", qt) ∷ []; queue = ids; max_queue = 1 }

-- What has happened to the daemon after the call of resume.
queued_again :
    Daemon.store (happen_all events (new_daemon 1))
    ≡ store_of (mark "apr_1" waiting_task) ("1" ∷ [])
unfolding happen_all trim_space new_daemon lookup put is_blank
queued_again = refl

enqueue_full_example :
    enqueue "2" waiting_task (store_of waiting_task ("1" ∷ []))
    ≡ (none, store_of waiting_task ("1" ∷ []))
enqueue_full_example =
    enqueue_full "2" waiting_task (store_of waiting_task ("1" ∷ [])) no_task (omega arith)
  where
    no_task : lookup "2" (("1", waiting_task) ∷ []) ≡ none
    no_task = unfold lookup in refl

first_call : (enqueue_resume ("1" ∷ []) "apr_1" (store_of waiting_task [])).0 ≡ ok "1"
unfolding enqueue_resume trim_space lookup is_blank
first_call = refl

-- Every key that is not "1" has no task.
key_is_1 : (a k : String) → waits_if a (lookup k (("1", waiting_task) ∷ [])) ≡ true → "1" ≡ k
unfolding lookup
key_is_1 a k h = elim (Bool-cases ("1" == k)) [
  | inl b ↦ (eq_iff "1" k).0 b
  | inr b ↦ ground (arith, b, h)
]

two_keys-Visits : Visits ("0" ∷ "1" ∷ []) (store_of waiting_task [])
unfolding lookup
two_keys-Visits k h = elim (Bool-cases ("1" == k)) [
  | inl b ↦ inr (inl ((eq_iff "1" k).0 b))
  | inr b ↦ absurd (h (rw b refl))
]

one_key-Visits : Visits ("1" ∷ []) (store_of waiting_task [])
unfolding lookup
one_key-Visits k h = elim (Bool-cases ("1" == k)) [
  | inl b ↦ inl ((eq_iff "1" k).0 b)
  | inr b ↦ absurd (h (rw b refl))
]

waiting-IsAlone : (a : String) → IsAlone a (store_of waiting_task [])
waiting-IsAlone a j k h l = sym (key_is_1 a j h) ∙ key_is_1 a k l

enqueue_resume_twice_example :
    enqueue_resume
      ("0" ∷ "1" ∷ [])
      "apr_1"
      ((enqueue_resume ("1" ∷ []) "apr_1" (store_of waiting_task [])).1)
    ≡ (err already_queued, (enqueue_resume ("1" ∷ []) "apr_1" (store_of waiting_task [])).1)
enqueue_resume_twice_example =
    enqueue_resume_twice ("1" ∷ []) ("0" ∷ "1" ∷ []) "apr_1" "1" (store_of waiting_task [])
      (waiting-IsAlone (trim_space "apr_1")) two_keys-Visits first_call

abbrev idle_daemon : Daemon
idle_daemon = record {
  store = store_of waiting_task [];
  current = none;
  heartbeat = record { running = false; failures = 0; last_success = none; last_error = "" };
}

not_empty : (trim_space "apr_1" == "") ≡ false
unfolding trim_space
not_empty = refl

stored : lookup "1" (TaskStore.tasks (Daemon.store idle_daemon)) ≡ some waiting_task
unfolding lookup
stored = refl

waits : waits_for (trim_space "apr_1") waiting_task ≡ true
unfolding waits_for trim_space
waits = refl

not_marked : is_blank (QueuedTask.resume_approval_id waiting_task) ≡ true
unfolding is_blank trim_space
not_marked = refl

denied_task_runs_example : RunsDenied "1" 20 21 (
    happen
      (taken 21)
      (happen (denied ("1" ∷ []) "apr_1" 20) (happen (resumed ("1" ∷ []) "apr_1") idle_daemon)))
denied_task_runs_example =
    denied_task_runs ("1" ∷ []) ("1" ∷ []) "apr_1" "1" 20 21 idle_daemon waiting_task not_empty refl
      refl refl stored waits not_marked (waiting-IsAlone (trim_space "apr_1")) one_key-Visits
      one_key-Visits
