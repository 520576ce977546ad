-- ===== src/Agent/State/RoundTrip.antt =====
-- The snapshot of agent/engine_runstate.go, and the context that is made of it again.
use Prim.Native.Nat.{◌/◌, ◌%◌}
use mister_morph.Base.{
  ℕ, ◌-◌, ◌*◌, ◌∙◌, arith, String, ◌≡◌, refl, ap, ◌≢◌, inl, inr, Option, none, some, List, [], ◌∷◌,
  map, ◌==◌, eq_iff, Bool-cases, All,
}
use mister_morph.Agent.Types.{Step, Context}
use mister_morph.Agent.State.{
  snapshot_step, restore_step, error_text, restore_error, snapshot_from_context,
  context_from_snapshot,
}

-- A step whose duration is cut to whole milliseconds
abbrev pub in_milliseconds : Step → Step
in_milliseconds s = record s { duration = s.duration - s.duration % 1000000 }

whole_milliseconds : (d : ℕ) → d / 1000000 * 1000000 ≡ d - d % 1000000
whole_milliseconds d = omega arith

step_back : (s : Step) → s.error ≢ some "" → restore_step (snapshot_step s) ≡ in_milliseconds s
step_back s h =
    ap (λ d. record (restore_step (snapshot_step s)) { duration = d })
      (whole_milliseconds s.duration)
    ∙ ap (λ o. record s { error = o; duration = s.duration - s.duration % 1000000 })
        (pick s.error h)
  where
    pick : (o : Option String) → o ≢ some "" → restore_error (error_text o) ≡ o
    pick none h' = refl
    pick (some m) h' = elim (Bool-cases (m == "")) [
      | inl b ↦ absurd (h' (ap some ((eq_iff m "").0 b)))
      | inr b ↦ rw b refl
    ]

steps_back :
    (steps : List Step)
    → All (λ s. s.error ≢ some "") steps
    → map restore_step (map snapshot_step steps) ≡ map in_milliseconds steps
steps_back [] h = refl
steps_back (s ∷ steps) (h, hs) = rw (step_back s h, steps_back steps hs) refl

-- A context whose steps have no error with an empty text comes back from its snapshot, but for the
-- durations of the steps, which are cut to whole milliseconds, and the raw final answer, which the
-- snapshot does not keep.
pub context_from_snapshot-snapshot_from_context :
    (c : Context)
    → All (λ s. s.error ≢ some "") c.steps
    → context_from_snapshot (snapshot_from_context c)
      ≡ record c { raw_final_answer = ""; steps = map in_milliseconds c.steps }
unfolding context_from_snapshot snapshot_from_context
context_from_snapshot-snapshot_from_context c h =
    ap (λ steps. record c { raw_final_answer = ""; steps = steps }) (steps_back c.steps h)
