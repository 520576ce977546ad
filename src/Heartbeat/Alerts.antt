-- ===== src/Heartbeat/Alerts.antt =====
-- When the heartbeat of internal/heartbeatutil/heartbeat.go raises an alert.
use mister_morph.Heartbeat.{initial, end_success, start, end_skipped, HeartbeatState, end_failure}
use Prim.Native.Nat.{◌%◌}
use mister_morph.Base.{
  ℕ, ◌+◌, ◌<◌, String, ◌≡◌, refl, ◌∙◌, Bool, true, false, Option, none, some, List, [], ◌∷◌, arith,
  nat_eq,
}

-- A call on the state.
pub data Event : Type 0 where
  started skipped : Event
  succeeded : ℕ → Event
  failed : Option String → Event

-- The state after some calls, the last one first
unfoldable pub after : List Event → HeartbeatState
after [] = initial
after (started ∷ events) = (start (after events)).1
after (skipped ∷ events) = end_skipped (after events)
after (succeeded now ∷ events) = end_success now (after events)
after (failed error ∷ events) = (end_failure error (after events)).1

-- The failures since the last success
unfoldable pub streak : List Event → ℕ
streak [] = 0
streak (started ∷ events) = streak events
streak (skipped ∷ events) = streak events
streak (succeeded now ∷ events) = 0
streak (failed error ∷ events) = streak events + 1

abbrev pub is_alert : Option String → Bool
is_alert none = false
is_alert (some message) = true

start-failures :
    (s : HeartbeatState) → HeartbeatState.failures ((start s).1) ≡ HeartbeatState.failures s
unfolding start
start-failures s = ground arith

end_failure-failures :
    (error : Option String) (s : HeartbeatState) (n : ℕ)
    → HeartbeatState.failures s ≡ n % 3
    → HeartbeatState.failures ((end_failure error s).1) ≡ (n + 1) % 3
unfolding end_failure
end_failure-failures error s n h = ground (arith, h)

-- The counter is the number of failures since the last success, modulo three.
failures-after : (events : List Event) → HeartbeatState.failures (after events) ≡ streak events % 3
unfolding after streak end_skipped end_success
failures-after [] = refl
failures-after (started ∷ events) = start-failures (after events) ∙ failures-after events
failures-after (skipped ∷ events) = failures-after events
failures-after (succeeded now ∷ events) = refl
failures-after (failed error ∷ events) =
    end_failure-failures error (after events) (streak events) (failures-after events)

end_failure-is_alert :
    (error : Option String) (s : HeartbeatState) (n : ℕ)
    → HeartbeatState.failures s ≡ n % 3
    → is_alert ((end_failure error s).0) ≡ nat_eq ((n + 1) % 3) 0
unfolding end_failure
end_failure-is_alert error s n h = ground (arith, h)

-- After any calls the counter of failures is below three, a failure then raises an alert exactly if
-- it makes the number of failures since the last success a multiple of three, and the counter is
-- that number modulo three.
pub end_failure-after :
    (events : List Event) (error : Option String)
    → (HeartbeatState.failures (after events) < 3)
      × (is_alert ((end_failure error (after events)).0)
          ≡ nat_eq (streak (failed error ∷ events) % 3) 0)
      × (HeartbeatState.failures (after (failed error ∷ events))
          ≡ streak (failed error ∷ events) % 3)
unfolding streak
end_failure-after events error = (
  omega (arith, failures-after events),
  end_failure-is_alert error (after events) (streak events) (failures-after events),
  failures-after (failed error ∷ events),
)
