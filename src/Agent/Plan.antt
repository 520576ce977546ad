-- ===== src/Agent/Plan.antt =====
-- agent/plan_status.go and the plan types of agent/types.go. A method that mutates `*Plan` returns
-- the new plan; a nil plan is `none`. An index that the code starts at -1 is `none` until it is set.
mod Counts
pub mod Normal
pub mod Fixed
pub mod Progress
pub mod Moves
pub mod Outcome
pub mod Liveness
mod Examples
use mister_morph.Base.{
  is_minus_one, pos, map, get_elem?, not, ℤ, negsuc, nat_eq, ℕ, suc, String, Bool, true, false,
  ◌||◌, Option, none, some, List, [], ◌∷◌, ◌==◌, length, ◌&&◌, modify, if◌then◌else◌, trim_space,
  to_lower,
}

pub record PlanStep : Type 0 where
  pub step : String
  pub status : String

pub record Plan : Type 0 where
  pub thought : String
  pub summary : String
  pub steps : List PlanStep
  pub risks : List String
  pub questions : List String
  pub completion : String

abbrev pub status_pending : String
status_pending = "pending"

abbrev pub status_in_progress : String
status_in_progress = "in_progress"

abbrev pub status_completed : String
status_completed = "completed"

-- The `switch` of the first loop of NormalizePlanSteps.
known_status : String → String
known_status st =
    if st == status_pending || (st == status_in_progress || st == status_completed)
    then st
    else status_pending

-- The body of the first loop.
clean_step : PlanStep → PlanStep
unfolding known_status
clean_step s = record {
  step = trim_space s.step;
  status = known_status (to_lower (trim_space s.status));
}

clean_steps : List PlanStep → List PlanStep
unfolding clean_step
clean_steps [] = []
clean_steps (s ∷ ss) = clean_step s ∷ clean_steps ss

-- What the second loop of NormalizePlanSteps carries: the steps, and two indices.
pub record Scan : Type 0 where
  pub steps : List PlanStep
  pub in_progress : Option ℕ
  pub first_pending : Option ℕ

abbrev pub or_index : Option ℕ → ℕ → Option ℕ
or_index none i = some i
or_index (some j) i = some j

abbrev pub push : PlanStep → Scan → Scan
push s r = record r { steps = s ∷ r.steps }

abbrev pub set_status : String → PlanStep → PlanStep
set_status st s = record s { status = st }

abbrev pub is_none : Option ℕ → Bool
is_none none = true
is_none (some _) = false

-- The second loop from index `i` on: the first step in progress is kept, others are demoted.
unfoldable pub scan : ℕ → Option ℕ → Option ℕ → List PlanStep → Scan
scan i in_progress first_pending [] = record {
  steps = [];
  in_progress = in_progress;
  first_pending = first_pending;
}
scan i in_progress first_pending (s ∷ ss) =
    let kept = if is_none in_progress then s else set_status status_pending s in
    let found = push kept (scan (suc i) (or_index in_progress i) first_pending ss) in
    let pending = if s.status == status_pending then or_index first_pending i else first_pending in
    let other = push s (scan (suc i) in_progress pending ss) in
    if s.status == status_in_progress then found else other

-- The last `if` of NormalizePlanSteps.
pub promote : Scan → List PlanStep
promote r = elim r.in_progress [
  | none ↦ elim r.first_pending [
    | none ↦ r.steps
    | some i ↦ modify (set_status status_in_progress) r.steps i
  ]
  | some _ ↦ r.steps
]

unfoldable pub normalize_steps : List PlanStep → List PlanStep
unfolding clean_steps scan promote
normalize_steps ss = promote (scan 0 none none (clean_steps ss))

-- NormalizePlanSteps
unfoldable pub normalize_plan_steps : Option Plan → Option Plan
unfolding normalize_steps
normalize_plan_steps none = none
normalize_plan_steps (some p) = some (record p { steps = normalize_steps p.steps })

-- What AdvancePlanOnSuccess returns, its int results zero before they are set.
pub record Advance : Type 0 where
  pub completed_index : ℤ
  pub completed_step : String
  pub started_index : ℤ
  pub started_step : String
  pub advanced : Bool

-- The loop of AdvancePlanOnSuccess, from index `i` on.
pub find_current_next : ℕ → Option ℕ → Option ℕ → List PlanStep → Option ℕ × Option ℕ
find_current_next i cur next [] = (cur, next)
find_current_next i cur next (s ∷ ss) =
    let here = find_current_next (suc i) (some i) next ss in
    let there =
      find_current_next (suc i) cur
        (if is_none next && s.status == status_pending then some i else next) ss in
    if s.status == status_in_progress && is_none cur then here else there

-- p.Steps[i].Step
pub step_text : List PlanStep → ℕ → String
step_text ss i = elim (get_elem? ss i) [ none ↦ "" | some s ↦ s.step ]

abbrev pub result_index : Option ℕ → ℤ
result_index none = pos 0
result_index (some i) = pos i

abbrev pub result_text : List PlanStep → Option ℕ → String
result_text ss none = ""
result_text ss (some i) = step_text ss i

abbrev pub mark : String → Option ℕ → List PlanStep → List PlanStep
mark st none ss = ss
mark st (some i) ss = modify (set_status st) ss i

-- After the loop: the current step is completed, the next one started.
pub advance_steps : List PlanStep → Option ℕ → Option ℕ → List PlanStep × Advance
unfolding step_text
advance_steps ss cur next =
    let done = mark status_completed cur ss in
    let completed_index = result_index cur in
    (
      mark status_in_progress next done,
      record {
        completed_index = completed_index;
        completed_step = result_text ss cur;
        started_index = result_index next;
        started_step = result_text done next;
        advanced = not (is_minus_one completed_index);
      },
    )

pub advance_plan : Plan → Option Plan × Advance
unfolding normalize_steps find_current_next advance_steps
advance_plan p =
    let ss = normalize_steps p.steps in
    let (cur, next) = find_current_next 0 none none ss in
    let (done, result) = advance_steps ss cur next in (some (record p { steps = done }), result)

abbrev pub no_advance : Advance
no_advance = record {
  completed_index = negsuc 0;
  completed_step = "";
  started_index = negsuc 0;
  started_step = "";
  advanced = false;
}

-- AdvancePlanOnSuccess
unfoldable pub advance_plan_on_success : Option Plan → Option Plan × Advance
unfolding advance_plan
advance_plan_on_success none = (none, no_advance)
advance_plan_on_success (some p) =
    if nat_eq (length p.steps) 0 then (some p, no_advance) else advance_plan p

-- CompleteAllPlanSteps
unfoldable pub complete_all_plan_steps : Option Plan → Option Plan
unfolding normalize_steps
complete_all_plan_steps none = none
complete_all_plan_steps (some p) =
    some (record p { steps = map (set_status status_completed) (normalize_steps p.steps) })
