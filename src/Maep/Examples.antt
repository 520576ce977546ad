-- ===== src/Maep/Examples.antt =====
-- A limit of two pushes, and two agents with the versions 1 to 3 and 2 to 5.
use mister_morph.Base.{
  ℤ, pos, negsuc, is_minus_one, is_space, trim_left, trim_right, trim_space, to_lower, to_upper,
  atoi, concat, join, is_blank, contains, trim_space-trim_space, text_lt, ℕ, zero, suc, ◌+◌, ◌-◌,
  ◌*◌, ◌≤◌, ◌<◌, String, ◌≡◌, refl, sym, ap, ◌∙◌, ◌≢◌, ◌↔◌, ◌⊎◌, inl, inr, Bool, true, false, not,
  ◌&&◌, ◌||◌, Option, none, some, List, [], ◌∷◌, ◌++◌, map, arith, ◌==◌, starts_with, eq_iff,
  eq_refl, ltb, leb, nat_eq, if◌then◌else◌, Bool-cases, Option-cases, length, get_elem?, modify,
  length-append, All, All-snoc, Any,
}
use mister_morph.Base.Result.{ok}
use mister_morph.Maep.Protocol.{negotiate_protocol, session_scope_by_topic}
use mister_morph.Maep.Pushes.{PushRateWindow}
use mister_morph.Maep.Bounds.{accepted, accepted-limit, InBoth, negotiate_protocol-greatest}

abbrev windows : List (String × PushRateWindow)
windows = ("a", record { window_minute = some 7; count = 1 }) ∷ []

two_accepted : accepted 2 "a" 8 ("a" ∷ " a " ∷ "b" ∷ "a" ∷ []) windows ≡ 2
unfolding accepted trim_space mister_morph.Maep.Pushes.allow_data_push
    mister_morph.Maep.Pushes.current_window mister_morph.Base.Json.lookup
    mister_morph.Base.Assoc.put
two_accepted = refl

accepted-limit_example : accepted 2 "a" 7 ("a" ∷ "b" ∷ " a" ∷ []) windows ≤ 2
accepted-limit_example = accepted-limit 2 "a" 7 ("a" ∷ "b" ∷ " a" ∷ []) windows (omega arith)

negotiate_protocol-greatest_example :
    (negotiate_protocol 1 3 2 5 ≡ ok 3) ↔ (InBoth 1 3 2 5 3 × ((u : ℕ) → InBoth 1 3 2 5 u → u ≤ 3))
negotiate_protocol-greatest_example = negotiate_protocol-greatest 1 3 2 5 3

agreed : negotiate_protocol 1 3 2 5 ≡ ok 3
unfolding negotiate_protocol
agreed = refl

scope : session_scope_by_topic " DM.Reply.v1 " ≡ "dialogue.v1"
unfolding session_scope_by_topic to_lower trim_space
scope = refl
