-- ===== src/Agent/Plan/Normal.antt =====
-- What NormalizePlanSteps establishes: known statuses, and exactly one step in progress while a step
-- is open.
use native.Mathlib.Nat.{zero-add}
use mister_morph.Base.{
  trim_space, to_lower, ℕ, suc, ◌+◌, String, ◌≡◌, refl, ◌⊎◌, inl, inr, true, false, Option, none,
  some, List, [], ◌∷◌, arith, eq_iff, if◌then◌else◌, Bool-cases, get_elem?, modify, All,
}
use mister_morph.Agent.Plan.Counts.{
  count-modify, modify-IsKnown, FirstAt, no_such, first_at, later-FirstAt, none_found, one_found,
  scan-Scanned, has_status, count_status, IsKnown,
}
use mister_morph.Agent.Plan.{
  normalize_steps, Scan, status_completed, promote, known_status, is_none, clean_steps, set_status,
  PlanStep, scan, status_pending, status_in_progress, or_index,
}

scan_keeps_first :
    (i j : ℕ) (ip : Option ℕ) (ss : List PlanStep) → (scan i ip (some j) ss).first_pending ≡ some j
unfolding scan
scan_keeps_first i j ip [] = refl
scan_keeps_first i j ip (s ∷ ss) =
    ground (arith, scan_keeps_first (suc i) j ip ss, scan_keeps_first (suc i) j (or_index ip i) ss)

pub scan-FirstAt :
    (i : ℕ) (ss : List PlanStep)
    → count_status status_in_progress ss ≡ 0
    → FirstAt status_pending i ss (scan i none none ss).first_pending
unfolding scan
scan-FirstAt i [] z = no_such refl refl
scan-FirstAt i (s ∷ ss) z =
    let not_running : has_status status_in_progress s ≡ false = ground arith in
    let rest : count_status status_in_progress ss ≡ 0 = ground arith in
    elim (Bool-cases (has_status status_pending s)) [
      | inl b ↦
          rw (not_running, b)
            (first_at 0 s (ground (arith, scan_keeps_first (suc i) i none ss)) refl b)
      | inr b ↦
          rw (not_running, b)
            (later-FirstAt status_pending i s ss _ b (scan-FirstAt (suc i) ss rest))
    ]

-- Every status is known, and one step is in progress unless all are completed.
pub record IsNormal (ss : List PlanStep) : Type 0 where
  pub known : All IsKnown ss
  pub one_running :
      (count_status status_in_progress ss ≡ 1)
      ⊎ ((count_status status_in_progress ss ≡ 0) × (count_status status_pending ss ≡ 0))

scan-IsKnown :
    (i : ℕ) (ip fp : Option ℕ) (ss : List PlanStep)
    → All IsKnown ss
    → All IsKnown (scan i ip fp ss).steps
unfolding scan
scan-IsKnown i ip fp [] h = tt
scan-IsKnown i ip fp (s ∷ ss) (k, ks) = elim (Bool-cases (has_status status_in_progress s)) [
  | inl b ↦ rw b (kept_known ip, scan-IsKnown (suc i) (or_index ip i) fp ss ks)
  | inr b ↦ rw b (k, scan-IsKnown (suc i) ip _ ss ks)
]
  where
    kept_known : (o : Option ℕ) → IsKnown (if is_none o then s else set_status status_pending s)
    kept_known none = k
    kept_known (some _) = inl refl

known_status_cases :
    (st : String)
    → (known_status st ≡ status_pending)
      ⊎ (known_status st ≡ status_in_progress)
      ⊎ (known_status st ≡ status_completed)
unfolding known_status
known_status_cases st =
    ground
      (arith, eq_iff st status_pending, eq_iff st status_in_progress, eq_iff st status_completed)

clean_steps-IsKnown : (ss : List PlanStep) → All IsKnown (clean_steps ss)
unfolding clean_steps
clean_steps-IsKnown [] = tt
clean_steps-IsKnown (s ∷ ss) =
    (known_status_cases (to_lower (trim_space s.status)), clean_steps-IsKnown ss)

pub promote-running : (r : Scan) → is_none r.in_progress ≡ false → promote r ≡ r.steps
unfolding promote
promote-running r h = ground arith

promote-IsNormal : (ss : List PlanStep) → All IsKnown ss → IsNormal (promote (scan 0 none none ss))
unfolding promote
promote-IsNormal ss known = elim (scan-Scanned 0 none ss) [
  | one_found p q ↦
      rw (promote-running (scan 0 none none ss) p)
        (record { known = scan-IsKnown 0 none none ss known; one_running = inl q })
  | none_found p q z ↦ elim (scan-FirstAt 0 ss z) [
    | no_such e f ↦ rw (p, e, q) (record { known = known; one_running = inr (z, f) })
    | first_at k s e g h ↦ rw (p, e, q) (started k s g h z)
  ]
]
  where
    started :
        (k : ℕ) (s : PlanStep)
        → get_elem? ss k ≡ some s
        → has_status status_pending s ≡ true
        → count_status status_in_progress ss ≡ 0
        → IsNormal (modify (set_status status_in_progress) ss (0 + k))
    started k s g h z = rw zero-add (record {
      known = modify-IsKnown status_in_progress ss k (λ t. inr (inl refl)) known;
      one_running = inl (
          omega
            (arith, count-modify status_pending status_in_progress status_in_progress ss k s g h));
    })

-- NormalizePlanSteps leaves only known statuses, and exactly one step in progress unless every step
-- is completed.
pub normalize_steps-IsNormal : (ss : List PlanStep) → IsNormal (normalize_steps ss)
unfolding normalize_steps
normalize_steps-IsNormal ss = promote-IsNormal (clean_steps ss) (clean_steps-IsKnown ss)
