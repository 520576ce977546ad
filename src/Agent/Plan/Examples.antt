-- ===== src/Agent/Plan/Examples.antt =====
-- The plan operations at concrete plans.
use mister_morph.Base.{
  pos, trim_space, to_lower, String, ◌≡◌, refl, true, some, List, [], ◌∷◌, map, arith,
}
use mister_morph.Agent.Plan.Progress.{open_steps}
use mister_morph.Agent.Plan.Normal.{IsNormal, normalize_steps-IsNormal}
use mister_morph.Agent.Plan.Fixed.{texts, normalize_steps-normalize_steps, texts-normalize_steps}
use mister_morph.Agent.Plan.Outcome.{
  AdvancedTo, advance_plan_on_success-AdvancedTo, advance_plan_completed,
}
use mister_morph.Agent.Plan.Liveness.{advance_times, advance_times-complete_all}
use mister_morph.Agent.Plan.{
  PlanStep, Plan, normalize_steps, advance_plan_on_success, complete_all_plan_steps,
}

abbrev step_of : String → String → PlanStep
step_of t st = record { step = t; status = st }

abbrev plan_of : List PlanStep → Plan
plan_of ss = record {
  thought = "";
  summary = "ship it";
  steps = ss;
  risks = [];
  questions = [];
  completion = "";
}

-- Statuses as a model may write them: two steps in progress, an unknown one, white space, capitals.
abbrev messy : List PlanStep
messy =
    step_of " read " "Completed"
    ∷ step_of "edit" " in_progress"
    ∷ step_of "test" "IN_PROGRESS"
    ∷ step_of "push" "todo"
    ∷ []

messy_normal :
    normalize_steps messy
    ≡ step_of "read" "completed"
      ∷ step_of "edit" "in_progress"
      ∷ step_of "test" "pending"
      ∷ step_of "push" "pending"
      ∷ []
unfolding normalize_steps to_lower trim_space
messy_normal = refl

normalize_steps-IsNormal_example : IsNormal (normalize_steps messy)
normalize_steps-IsNormal_example = normalize_steps-IsNormal messy

normalize_steps-normalize_steps_example :
    normalize_steps (normalize_steps messy) ≡ normalize_steps messy
normalize_steps-normalize_steps_example = normalize_steps-normalize_steps messy

texts-normalize_steps_example : texts (normalize_steps messy) ≡ map (λ s. trim_space s.step) messy
texts-normalize_steps_example = texts-normalize_steps messy

messy_open : open_steps (normalize_steps messy) ≡ 3
unfolding normalize_steps to_lower trim_space
messy_open = refl

advance_plan_on_success-AdvancedTo_example :
    AdvancedTo (plan_of messy) (advance_plan_on_success (some (plan_of messy)))
advance_plan_on_success-AdvancedTo_example =
    advance_plan_on_success-AdvancedTo (plan_of messy) (omega (arith, messy_open))

advance_times-complete_all_example :
    advance_times 3 (some (plan_of messy)) ≡ complete_all_plan_steps (some (plan_of messy))
advance_times-complete_all_example = advance_times-complete_all 2 (plan_of messy) messy_open

abbrev over : Plan
over = plan_of (step_of "read" "completed" ∷ [])

over_closed : open_steps (normalize_steps over.steps) ≡ 0
unfolding normalize_steps to_lower trim_space
over_closed = refl

-- The host is told that a step was completed although none was open.
advance_plan_completed_example : advance_plan_on_success (some over) ≡ (
  some (record over { steps = normalize_steps over.steps }),
  record {
    completed_index = pos 0;
    completed_step = "";
    started_index = pos 0;
    started_step = "";
    advanced = true;
  },
)
advance_plan_completed_example = advance_plan_completed over (omega arith) over_closed
