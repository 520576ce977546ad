-- ===== src/Heartbeat/Examples.antt =====
-- Three failures, with a skipped heartbeat between them.
use mister_morph.Heartbeat.Alerts.{
  end_failure-after, succeeded, streak, started, skipped, is_alert, failed, after, Event,
}
use mister_morph.Heartbeat.{pending_items, HeartbeatState, end_failure}
use Prim.Native.Nat.{◌%◌}
use mister_morph.Base.{
  trim_space, concat, ◌<◌, ◌≡◌, refl, true, false, none, some, List, [], ◌∷◌, nat_eq,
}
use mister_morph.Heartbeat

abbrev two_failures : List Event
two_failures =
    failed none ∷ skipped ∷ started ∷ failed (some " timeout ") ∷ started ∷ succeeded 7 ∷ []

alerted : (end_failure (some "down") (after two_failures)).0 ≡ some "ALERT: heartbeat_failed (down)"
unfolding end_failure after Heartbeat.end_skipped Heartbeat.start Heartbeat.end_success trim_space
    concat
alerted = refl

end_failure-after_example :
    (HeartbeatState.failures (after two_failures) < 3)
    × (is_alert ((end_failure none (after two_failures)).0)
        ≡ nat_eq (streak (failed none ∷ two_failures) % 3) 0)
    × (HeartbeatState.failures (after (failed none ∷ two_failures))
        ≡ streak (failed none ∷ two_failures) % 3)
end_failure-after_example = end_failure-after two_failures none

two_pending :
    pending_items
      (record { text = " a "; is_done = false }
        ∷ record { text = "b"; is_done = true }
        ∷ record { text = "c"; is_done = false }
        ∷ record { text = "d"; is_done = false }
        ∷ [])
      0
    ≡ "a" ∷ "c" ∷ []
unfolding pending_items trim_space
two_pending = refl
