-- ===== src/Agent/Plan/Outcome.antt =====
-- What AdvancePlanOnSuccess does to a whole plan, and what it reports.
use native.Mathlib.Nat.{zero-add}
use mister_morph.Base.{
  pos, ℕ, ◌<◌, ◌≡◌, refl, inl, inr, true, Option, none, some, List, [], ◌∷◌, arith, nat_eq,
  Bool-cases, length, get_elem?,
}
use mister_morph.Agent.Plan.Counts.{none_at, no_such, first_at, FirstAt, has_status, count_status}
use mister_morph.Agent.Plan.Normal.{IsNormal, normalize_steps-IsNormal}
use mister_morph.Agent.Plan.Progress.{
  open_steps, Advances, last-Advances, next-Advances, find-current, find-next,
}
use mister_morph.Agent.Plan.Moves.{Moves, last-Moves, next-Moves}
use mister_morph.Agent.Plan.{
  false, advance_plan, advance_plan_on_success, step_text, find_current_next, normalize_steps, Plan,
  PlanStep, Advance, status_pending, status_in_progress, advance_steps,
}

-- What the caller is told of an advance that completed a step: the step that was in progress.
pub record Reports (ss : List PlanStep) (a : Advance) : Type 0 where
  pub advanced : a.advanced ≡ true
  pub index : ℕ
  pub current : PlanStep
  pub completed_index : a.completed_index ≡ pos index
  pub was_at : get_elem? ss index ≡ some current
  pub was_running : has_status status_in_progress current ≡ true
  pub completed_step : a.completed_step ≡ current.step

advance_steps-Advances :
    (ss : List PlanStep) (next : Option ℕ)
    → IsNormal ss
    → count_status status_in_progress ss ≡ 1
    → FirstAt status_pending 0 ss next
    → (c : ℕ) (s : PlanStep) → get_elem? ss c ≡ some s
    → has_status status_in_progress s ≡ true
    → Advances ss (advance_steps ss (some c) next).0
      × Moves ss (advance_steps ss (some c) next).0
      × Reports ss (advance_steps ss (some c) next).1
unfolding advance_steps
advance_steps-Advances ss next normal one found c s g h = (
  elim found [
    | no_such e z ↦ rw e (last-Advances ss normal c s g h z)
    | first_at n t e k l ↦ rw (e, zero-add) (next-Advances ss normal c s g h n t k l)
  ],
  elim found [
    | no_such e z ↦ rw e (last-Moves ss one c s g h)
    | first_at n t e k l ↦ rw (e, zero-add) (next-Moves ss one c s g h n t k l)
  ],
  record {
    advanced = refl;
    index = c;
    current = s;
    completed_index = refl;
    was_at = g;
    was_running = h;
    completed_step = rw (g, step_text);
  },
)

-- The plan that AdvancePlanOnSuccess leaves, and what it reports.
pub record AdvancedTo (p : Plan) (r : Option Plan × Advance) : Type 0 where
  pub steps : List PlanStep
  pub is_plan : r.0 ≡ some (record p { steps = steps })
  pub advances : Advances (normalize_steps p.steps) steps
  pub moves : Moves (normalize_steps p.steps) steps
  pub reports : Reports (normalize_steps p.steps) r.1

advance_plan-AdvancedTo :
    (p : Plan) → 0 < open_steps (normalize_steps p.steps) → AdvancedTo p (advance_plan p)
unfolding advance_plan
advance_plan-AdvancedTo p h =
    let ss = normalize_steps p.steps in
    let normal = normalize_steps-IsNormal p.steps in
    elim (find-current 0 none ss) [
      | no_such e z ↦ absurd (omega (arith, normal.one_running))
      | first_at c s e g k ↦
          let result =
            advance_steps-Advances ss (find_current_next 0 none none ss).1 normal
              (omega (arith, normal.one_running)) (find-next 0 none ss) c s g k in
          record {
            steps =
                (advance_steps ss (find_current_next 0 none none ss).0
                  (find_current_next 0 none none ss).1).0;
            is_plan = refl;
            advances = rw (e, zero-add) (result.0);
            moves = rw (e, zero-add) (result.1);
            reports = rw (e, zero-add) (result.2);
          }
    ]

-- On a plan with an open step, AdvancePlanOnSuccess completes exactly the step that was in progress
-- and reports it; completed steps stay as they are, and one that waits stays or is started. The new
-- plan has one open step fewer and one completed step more, the same texts, and again exactly one step
-- in progress unless all are completed.
pub advance_plan_on_success-AdvancedTo :
    (p : Plan)
    → 0 < open_steps (normalize_steps p.steps)
    → AdvancedTo p (advance_plan_on_success (some p))
unfolding advance_plan_on_success
advance_plan_on_success-AdvancedTo p h = elim (Bool-cases (nat_eq (length p.steps) 0)) [
  | inl b ↦ absurd (nothing_open p.steps b h)
  | inr b ↦ rw b (advance_plan-AdvancedTo p h)
]
  where
    nothing_open :
        (ss : List PlanStep) → nat_eq (length ss) 0 ≡ true → 0 < open_steps (normalize_steps ss) → ⊥
    nothing_open [] b k = omega arith
    nothing_open (s ∷ ss) b k = ground arith

-- On a plan with steps, all completed, AdvancePlanOnSuccess completes nothing and yet reports
-- success: that step 0, with no text, was completed, and step 0 was started.
pub advance_plan_completed :
    (p : Plan)
    → 0 < length p.steps
    → open_steps (normalize_steps p.steps) ≡ 0
    → advance_plan_on_success (some p) ≡ (
      some (record p { steps = normalize_steps p.steps }),
      record {
        completed_index = pos 0;
        completed_step = "";
        started_index = pos 0;
        started_step = "";
        advanced = true;
      },
    )
unfolding advance_plan_on_success advance_steps
advance_plan_completed p h z =
    let ss = normalize_steps p.steps in
    let b : nat_eq (length p.steps) 0 ≡ false = ground arith in
    elim (find-current 0 none ss) [
      | first_at c s e g k ↦ absurd (none_at status_in_progress ss c s g k (omega arith))
      | no_such e y ↦ elim (find-next 0 none ss) [
        | first_at c s f g k ↦ absurd (none_at status_pending ss c s g k (omega arith))
        | no_such f x ↦ rw (b, e, f)
      ]
    ]
