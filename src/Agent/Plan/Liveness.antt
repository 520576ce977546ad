-- ===== src/Agent/Plan/Liveness.antt =====
-- Repeated advances complete a plan.
use mathlib.Core.Path.{ap₂}
use mister_morph.Base.{
  ℕ, zero, suc, ◌≡◌, refl, sym, ap, ◌∙◌, inl, inr, Option, some, List, [], ◌∷◌, map, arith, eq_iff,
  All,
}
use mister_morph.Agent.Plan.Counts.{IsKnown}
use mister_morph.Agent.Plan.Normal.{IsNormal}
use mister_morph.Agent.Plan.Fixed.{
  normalize_steps-IsTrimmed, texts, IsTrimmed, normalize_steps_fixed, All-texts,
}
use mister_morph.Agent.Plan.Progress.{open_steps}
use mister_morph.Agent.Plan.{
  complete_all_plan_steps, status_completed, set_status, advance_plan_on_success, normalize_steps,
  Plan, PlanStep, status_pending, status_in_progress,
}
use mister_morph.Agent.Plan.Outcome.{advance_plan_on_success-AdvancedTo}

abbrev pub IsCompleted : PlanStep → Type 0
IsCompleted s = s.status ≡ status_completed

closed-All : (ss : List PlanStep) → All IsKnown ss → open_steps ss ≡ 0 → All IsCompleted ss
closed-All [] k z = tt
closed-All (s ∷ ss) (inr (inr e), ks) z = (e, closed-All ss ks (omega arith))
closed-All (s ∷ ss) (inl e, ks) z = absurd (ground (arith, eq_iff s.status status_pending))
closed-All (s ∷ ss) (inr (inl e), ks) z =
    absurd (ground (arith, eq_iff s.status status_in_progress))

All-IsCompleted : (ss : List PlanStep) → All IsCompleted (map (set_status status_completed) ss)
All-IsCompleted [] = tt
All-IsCompleted (s ∷ ss) = (refl, All-IsCompleted ss)

texts-map_set : (ss : List PlanStep) → texts (map (set_status status_completed) ss) ≡ texts ss
texts-map_set [] = refl
texts-map_set (s ∷ ss) = ap (λ t. s.step ∷ t) (texts-map_set ss)

completed_equal :
    (ss ts : List PlanStep)
    → All IsCompleted ss
    → All IsCompleted ts
    → texts ss ≡ texts ts
    → ss ≡ ts
completed_equal [] [] h k e = refl
completed_equal [] (t ∷ ts) h k e = cc
completed_equal (s ∷ ss) [] h k e = cc
completed_equal (s ∷ ss) (t ∷ ts) (h, hs) (k, ks) e =
    let same_step : s.step ≡ t.step = cc in
    let same_status : s.status ≡ t.status = h ∙ sym k in
    let same : s ≡ t = λ i. record { step = same_step i; status = same_status i } in
    ap₂ ◌∷◌ same (completed_equal ss ts hs ks (cc))

-- AdvancePlanOnSuccess, as often as a number says.
abbrev pub advance_times : ℕ → Option Plan → Option Plan
advance_times zero o = o
advance_times (suc n) o = advance_times n (advance_plan_on_success o).0

-- From a normal plan, as many advances as there are open steps complete it.
drain :
    (n : ℕ) (p : Plan)
    → IsNormal p.steps
    → All IsTrimmed p.steps
    → open_steps p.steps ≡ n
    → (ss : List PlanStep) × (advance_times n (some p) ≡ some (record p { steps = ss }))
      × All IsCompleted ss
      × (texts ss ≡ texts p.steps)
drain zero p normal trimmed z = (p.steps, refl, closed-All p.steps normal.known z, refl)
drain (suc n) p normal trimmed z =
    let fixed = normalize_steps_fixed p.steps normal trimmed in
    let to = advance_plan_on_success-AdvancedTo p (rw fixed (omega arith)) in
    let same : texts to.steps ≡ texts p.steps = to.advances.same_texts ∙ ap texts fixed in
    let (ss, e, c, t) =
      drain n (record p { steps = to.steps }) to.advances.normal
        (All-texts to.steps p.steps same trimmed)
        (omega (arith, to.advances.one_fewer, ap open_steps fixed)) in
    (ss, rw to.is_plan e, c, t ∙ same)

drain_first :
    (n : ℕ) (p : Plan)
    → open_steps (normalize_steps p.steps) ≡ suc n
    → (ss : List PlanStep) × (advance_times (suc n) (some p) ≡ some (record p { steps = ss }))
      × All IsCompleted ss
      × (texts ss ≡ texts (normalize_steps p.steps))
drain_first n p z =
    let to = advance_plan_on_success-AdvancedTo p (omega arith) in
    let (ss, e, c, t) =
      drain n (record p { steps = to.steps }) to.advances.normal
        (All-texts to.steps (normalize_steps p.steps) to.advances.same_texts
          (normalize_steps-IsTrimmed p.steps))
        (omega (arith, to.advances.one_fewer)) in
    (ss, rw to.is_plan e, c, t ∙ to.advances.same_texts)

-- As many successful tool calls as a plan has open steps bring it to the plan that
-- CompleteAllPlanSteps makes of it at once.
pub advance_times-complete_all :
    (n : ℕ) (p : Plan)
    → open_steps (normalize_steps p.steps) ≡ suc n
    → advance_times (suc n) (some p) ≡ complete_all_plan_steps (some p)
unfolding complete_all_plan_steps
advance_times-complete_all n p z =
    let (ss, e, c, t) = drain_first n p z in
    let same : ss ≡ map (set_status status_completed) (normalize_steps p.steps) =
      completed_equal ss (map (set_status status_completed) (normalize_steps p.steps)) c
        (All-IsCompleted (normalize_steps p.steps))
        (t ∙ sym (texts-map_set (normalize_steps p.steps))) in
    e ∙ ap (λ ts. some (record p { steps = ts })) same
