-- ===== src/Agent/Plan/Fixed.antt =====
-- NormalizePlanSteps changes nothing when it runs again.
use mathlib.Core.Path.{ap₂}
use mister_morph.Base.{
  ◌≤◌, to_lower, zero, trim_space, trim_space-trim_space, ℕ, suc, String, ◌≡◌, refl, sym, ap, ◌∙◌,
  inl, inr, Option, none, some, List, [], ◌∷◌, map, arith, ◌==◌, if◌then◌else◌, Bool-cases, modify,
  All,
}
use mister_morph.Agent.Plan.Counts.{
  none_at, no_such, first_at, none_found, one_found, scan-Scanned, count_status, IsKnown,
  has_status,
}
use mister_morph.Agent.Plan.Normal.{
  normalize_steps-IsNormal, IsNormal, promote-running, scan-FirstAt,
}
use mister_morph.Agent.Plan.{
  clean_step, to_lower, false, known_status, PlanStep, Scan, scan, status_pending,
  status_in_progress, set_status, or_index, clean_steps, promote, normalize_steps,
}

-- The text of a step has no white space around it.
abbrev pub IsTrimmed : PlanStep → Type 0
IsTrimmed s = trim_space s.step ≡ s.step

clean_steps-IsTrimmed : (ss : List PlanStep) → All IsTrimmed (clean_steps ss)
unfolding clean_steps
clean_steps-IsTrimmed [] = tt
clean_steps-IsTrimmed (s ∷ ss) = (trim_space-trim_space s.step, clean_steps-IsTrimmed ss)

-- The texts of the steps.
abbrev pub texts : List PlanStep → List String
texts = map (λ s. s.step)

texts-scan :
    (i : ℕ) (ip fp : Option ℕ) (ss : List PlanStep) → texts (scan i ip fp ss).steps ≡ texts ss
unfolding scan
texts-scan i ip fp [] = refl
texts-scan i ip fp (s ∷ ss) = elim (Bool-cases (has_status status_in_progress s)) [
  | inl b ↦ rw b (ground (arith, texts-scan (suc i) (or_index ip i) fp ss))
  | inr b ↦
      rw b
        (cc (texts-scan (suc i) ip (if s.status == status_pending then or_index fp i else fp) ss))
]

pub texts-modify :
    (st : String) (ss : List PlanStep) (k : ℕ) → texts (modify (set_status st) ss k) ≡ texts ss
texts-modify st [] k = refl
texts-modify st (x ∷ ss) zero = refl
texts-modify st (x ∷ ss) (suc k) = ap (λ t. x.step ∷ t) (texts-modify st ss k)

texts-promote : (r : Scan) → texts (promote r) ≡ texts r.steps
unfolding promote
texts-promote r = go r.in_progress r.first_pending refl refl
  where
    go :
        (ip fp : Option ℕ)
        → r.in_progress ≡ ip
        → r.first_pending ≡ fp
        → texts (promote r) ≡ texts r.steps
    go (some i) fp e f = rw e
    go none none e f = rw (e, f)
    go none (some k) e f = rw (e, f) (texts-modify status_in_progress r.steps k)

texts-clean_steps : (ss : List PlanStep) → texts (clean_steps ss) ≡ map (λ s. trim_space s.step) ss
unfolding clean_steps
texts-clean_steps [] = refl
texts-clean_steps (s ∷ ss) = ap (λ t. trim_space s.step ∷ t) (texts-clean_steps ss)

-- NormalizePlanSteps keeps the steps, with the white space around their texts trimmed.
pub texts-normalize_steps :
    (ss : List PlanStep) → texts (normalize_steps ss) ≡ map (λ s. trim_space s.step) ss
unfolding normalize_steps
texts-normalize_steps ss =
    texts-promote (scan 0 none none (clean_steps ss))
    ∙ texts-scan 0 none none (clean_steps ss)
    ∙ texts-clean_steps ss

clean_status_known :
    (s : PlanStep) → IsKnown s → known_status (to_lower (trim_space s.status)) ≡ s.status
unfolding known_status trim_space to_lower
clean_status_known s (inl e) = rw e
clean_status_known s (inr (inl e)) = rw e
clean_status_known s (inr (inr e)) = rw e

clean_steps_fixed : (ss : List PlanStep) → All IsKnown ss → All IsTrimmed ss → clean_steps ss ≡ ss
unfolding clean_steps
clean_steps_fixed [] k t = refl
clean_steps_fixed (s ∷ ss) (k, ks) (t, ts) = ap₂ ◌∷◌ same (clean_steps_fixed ss ks ts)
  where
    same : clean_step s ≡ s
    same i = record { step = t i; status = clean_status_known s k i }

scan_found_fixed :
    (i j : ℕ) (fp : Option ℕ) (ss : List PlanStep)
    → count_status status_in_progress ss ≡ 0
    → (scan i (some j) fp ss).steps ≡ ss
unfolding scan
scan_found_fixed i j fp [] z = refl
scan_found_fixed i j fp (s ∷ ss) z =
    let quiet : has_status status_in_progress s ≡ false = ground arith in
    let rest : count_status status_in_progress ss ≡ 0 = ground arith in
    rw quiet (ap (λ t. s ∷ t) (scan_found_fixed (suc i) j _ ss rest))

scan_fixed :
    (i : ℕ) (fp : Option ℕ) (ss : List PlanStep)
    → count_status status_in_progress ss ≤ 1
    → (scan i none fp ss).steps ≡ ss
unfolding scan
scan_fixed i fp [] z = refl
scan_fixed i fp (s ∷ ss) z = elim (Bool-cases (has_status status_in_progress s)) [
  | inl b ↦ rw b (ap (λ t. s ∷ t) (scan_found_fixed (suc i) i fp ss (ground arith)))
  | inr b ↦ rw b (ap (λ t. s ∷ t) (scan_fixed (suc i) _ ss (ground arith)))
]

promote_done : (r : Scan) → r.in_progress ≡ none → r.first_pending ≡ none → promote r ≡ r.steps
unfolding promote
promote_done r e f = rw (e, f)

-- A plan that is normal and trimmed is left as it is.
pub normalize_steps_fixed :
    (ss : List PlanStep) → IsNormal ss → All IsTrimmed ss → normalize_steps ss ≡ ss
unfolding normalize_steps
normalize_steps_fixed ss n t = rw (clean_steps_fixed ss n.known t) (elim n.one_running [
  | inl one ↦ elim (scan-Scanned 0 none ss) [
    | one_found p q ↦ promote-running (scan 0 none none ss) p ∙ scan_fixed 0 none ss (omega arith)
    | none_found p q z ↦ absurd (omega arith)
  ]
  | inr (z, f) ↦ elim (scan-Scanned 0 none ss) [
    | one_found p q ↦ promote-running (scan 0 none none ss) p ∙ scan_fixed 0 none ss (omega arith)
    | none_found p q z ↦ elim (scan-FirstAt 0 ss z) [
      | no_such e g ↦ promote_done (scan 0 none none ss) p e ∙ q
      | first_at k s e g h ↦ absurd (none_at status_pending ss k s g h f)
    ]
  ]
])

pub All-texts :
    (ss : List PlanStep) (ts : List PlanStep)
    → texts ss ≡ texts ts
    → All IsTrimmed ts
    → All IsTrimmed ss
All-texts [] ts e h = tt
All-texts (s ∷ ss) [] e h = cc
All-texts (s ∷ ss) (t ∷ ts) e h =
    let same : s.step ≡ t.step = cc in (rw same h.0, All-texts ss ts (cc) h.1)

pub normalize_steps-IsTrimmed : (ss : List PlanStep) → All IsTrimmed (normalize_steps ss)
normalize_steps-IsTrimmed ss =
    All-texts (normalize_steps ss) (clean_steps ss)
      (texts-normalize_steps ss ∙ sym (texts-clean_steps ss)) (clean_steps-IsTrimmed ss)

-- Running NormalizePlanSteps again changes nothing.
pub normalize_steps-normalize_steps :
    (ss : List PlanStep) → normalize_steps (normalize_steps ss) ≡ normalize_steps ss
normalize_steps-normalize_steps ss =
    normalize_steps_fixed (normalize_steps ss) (normalize_steps-IsNormal ss)
      (normalize_steps-IsTrimmed ss)
