-- ===== src/Heartbeat.antt =====
-- The state of internal/heartbeatutil/heartbeat.go behind its lock, and the pending items of a
-- checklist. Times are numbers; an error comes as the text of its message.
pub mod Alerts
mod Examples
use mister_morph.Base.{
  ℤ, pos, negsuc, is_minus_one, is_space, trim_left, trim_right, trim_space, to_lower, to_upper,
  atoi, concat, join, is_blank, trim_space-trim_space, text_lt, ℕ, zero, suc, ◌+◌, ◌-◌, ◌*◌, ◌≤◌,
  ◌<◌, String, ◌≡◌, refl, sym, ap, ◌∙◌, ◌≢◌, ◌↔◌, ◌⊎◌, inl, inr, Bool, true, false, not, ◌&&◌, ◌||◌,
  Option, none, some, List, [], ◌∷◌, ◌++◌, map, arith, ◌==◌, starts_with, eq_iff, eq_refl, ltb, leb,
  nat_eq, if◌then◌else◌, Bool-cases, Option-cases, length, get_elem?, modify, length-append, All,
  All-snoc, Any,
}
use Prim.Native.String

abbrev pub failure_threshold : ℕ
failure_threshold = 3

pub record HeartbeatState : Type 0 where
  pub running : Bool
  pub failures : ℕ
  pub last_success : Option ℕ
  pub last_error : String

abbrev pub initial : HeartbeatState
initial = record { running = false; failures = 0; last_success = none; last_error = "" }

unfoldable pub start : HeartbeatState → Bool × HeartbeatState
start s = if HeartbeatState.running s then (false, s) else (true, record s { running = true })

unfoldable pub end_skipped : HeartbeatState → HeartbeatState
end_skipped s = record s { running = false }

unfoldable pub end_success : ℕ → HeartbeatState → HeartbeatState
end_success now s = record {
  running = false;
  failures = 0;
  last_success = some now;
  last_error = "";
}

abbrev noted : Option String → String → String
noted none last_error = last_error
noted (some message) last_error = trim_space message

unfoldable alert_message : String → String
alert_message last_error =
    if last_error == ""
    then "ALERT: heartbeat_failed"
    else concat ("ALERT: heartbeat_failed (" ∷ last_error ∷ ")" ∷ [])

-- EndFailure, with the message of the alert, if there is one
unfoldable pub end_failure : Option String → HeartbeatState → Option String × HeartbeatState
unfolding alert_message
end_failure error s =
    let last_error = noted error (HeartbeatState.last_error s) in
    let failures = HeartbeatState.failures s + 1 in
    if leb failure_threshold failures
    then (
      some (alert_message last_error),
      record s { running = false; failures = 0; last_error = last_error },
    )
    else (none, record s { running = false; failures = failures; last_error = last_error })

-- memory.TaskItem
pub record TaskItem : Type 0 where
  pub text : String
  pub is_done : Bool

-- The loop of pendingItems, for as many items as may still be added
unfoldable pub pending_loop : List TaskItem → ℕ → List String
pending_loop [] room = []
pending_loop (it ∷ items) zero = []
pending_loop (it ∷ items) (suc room) =
    let text = trim_space (TaskItem.text it) in
    let skip = TaskItem.is_done it || text == "" in
    let rest = pending_loop items (if skip then suc room else room) in
    if skip then rest else text ∷ rest

unfoldable pub pending_items : List TaskItem → ℕ → List String
unfolding pending_loop
pending_items items zero = pending_loop items 2
pending_items items (suc limit) = pending_loop items (suc limit)
