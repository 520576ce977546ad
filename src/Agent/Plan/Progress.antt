-- ===== src/Agent/Plan/Progress.antt =====
-- AdvancePlanOnSuccess: one open step fewer each time, until all are completed.
use mister_morph.Base.{
  ℕ, zero, suc, ◌+◌, String, ◌≡◌, refl, ◌∙◌, inl, inr, true, ◌&&◌, Option, none, some, List, [],
  ◌∷◌, arith, Bool-cases, get_elem?, modify, All,
}
use mister_morph.Agent.Plan.Counts.{
  count-modify, modify-IsKnown, IsKnown, has_status, count_status, FirstAt, no_such, first_at,
  later-FirstAt, one_status,
}
use mister_morph.Agent.Plan.Normal.{IsNormal}
use mister_morph.Agent.Plan.Fixed.{texts, texts-modify}
use mister_morph.Agent.Plan.{
  set_status, PlanStep, status_pending, status_in_progress, status_completed, is_none,
  find_current_next,
}

find_keeps_current :
    (i j : ℕ) (next : Option ℕ) (ss : List PlanStep)
    → (find_current_next i (some j) next ss).0 ≡ some j
unfolding find_current_next
find_keeps_current i j next [] = refl
find_keeps_current i j next (s ∷ ss) =
    ground (arith, find_keeps_current (suc i) j next ss, find_keeps_current (suc i) j (some i) ss)

pub find-current :
    (i : ℕ) (next : Option ℕ) (ss : List PlanStep)
    → FirstAt status_in_progress i ss (find_current_next i none next ss).0
unfolding find_current_next
find-current i next [] = no_such refl refl
find-current i next (s ∷ ss) = elim (Bool-cases (has_status status_in_progress s)) [
  | inl b ↦ rw b (first_at 0 s (ground (arith, find_keeps_current (suc i) i next ss)) refl b)
  | inr b ↦ rw b (later-FirstAt status_in_progress i s ss _ b (find-current (suc i) _ ss))
]

find_keeps_next :
    (i j : ℕ) (cur : Option ℕ) (ss : List PlanStep)
    → (find_current_next i cur (some j) ss).1 ≡ some j
unfolding find_current_next
find_keeps_next i j cur [] = refl
find_keeps_next i j cur (s ∷ ss) =
    ground (arith, find_keeps_next (suc i) j cur ss, find_keeps_next (suc i) j (some i) ss)

pub find-next :
    (i : ℕ) (cur : Option ℕ) (ss : List PlanStep)
    → FirstAt status_pending i ss (find_current_next i cur none ss).1
unfolding find_current_next
find-next i cur [] = no_such refl refl
find-next i cur (s ∷ ss) = elim (Bool-cases (has_status status_pending s)) [
  | inl b ↦
      rw (one_status s status_pending status_in_progress refl b, b)
        (first_at 0 s (ground (arith, find_keeps_next (suc i) i cur ss)) refl b)
  | inr b ↦ elim (Bool-cases (has_status status_in_progress s && is_none cur)) [
    | inl c ↦ rw c (later-FirstAt status_pending i s ss _ b (find-next (suc i) (some i) ss))
    | inr c ↦ rw (c, b) (later-FirstAt status_pending i s ss _ b (find-next (suc i) cur ss))
  ]
]

-- Completing the current step leaves a pending one where it is.
get_elem?-complete :
    (ss : List PlanStep) (c n : ℕ) (s t : PlanStep)
    → get_elem? ss c ≡ some s
    → has_status status_in_progress s ≡ true
    → get_elem? ss n ≡ some t
    → has_status status_pending t ≡ true
    → get_elem? (modify (set_status status_completed) ss c) n ≡ some t
get_elem?-complete [] c n s t g h k l = cc
get_elem?-complete (x ∷ ss) zero zero s t g h k l =
    ground (arith, one_status t status_pending status_in_progress refl l)
get_elem?-complete (x ∷ ss) zero (suc n) s t g h k l = k
get_elem?-complete (x ∷ ss) (suc c) zero s t g h k l = k
get_elem?-complete (x ∷ ss) (suc c) (suc n) s t g h k l = get_elem?-complete ss c n s t g h k l

-- The steps that are not completed, of a list with known statuses.
abbrev pub open_steps : List PlanStep → ℕ
open_steps ss = count_status status_pending ss + count_status status_in_progress ss

-- What one advance does to the steps.
pub record Advances (ss done : List PlanStep) : Type 0 where
  pub normal : IsNormal done
  pub one_fewer : suc (open_steps done) ≡ open_steps ss
  pub one_more : count_status status_completed done ≡ suc (count_status status_completed ss)
  pub same_texts : texts done ≡ texts ss

module _ (ss : List PlanStep) (normal : IsNormal ss) (c : ℕ) (s : PlanStep)
    (at_c : get_elem? ss c ≡ some s) (running : has_status status_in_progress s ≡ true) where
  abbrev pub completed : List PlanStep
  completed = modify (set_status status_completed) ss c

  counts :
      (suc (count_status status_in_progress completed) ≡ count_status status_in_progress ss)
      × (count_status status_pending completed ≡ count_status status_pending ss)
      × (count_status status_completed completed ≡ suc (count_status status_completed ss))
  counts = (
    omega (
      arith,
      count-modify status_in_progress status_completed status_in_progress ss c s at_c running,
    ),
    omega (
      arith,
      count-modify status_in_progress status_completed status_pending ss c s at_c running,
    ),
    omega (
      arith,
      count-modify status_in_progress status_completed status_completed ss c s at_c running,
    ),
  )

  IsKnown-completed : All IsKnown completed
  IsKnown-completed = modify-IsKnown status_completed ss c (λ t. inr (inr refl)) normal.known

  pub last-Advances : count_status status_pending ss ≡ 0 → Advances ss completed
  last-Advances z = record {
    normal = record {
      known = IsKnown-completed;
      one_running = inr (omega (arith, normal.one_running, counts), omega (arith, counts));
    };
    one_fewer = omega (arith, counts);
    one_more = omega (arith, counts);
    same_texts = texts-modify status_completed ss c;
  }

  pub next-Advances :
      (n : ℕ) (t : PlanStep)
      → get_elem? ss n ≡ some t
      → has_status status_pending t ≡ true
      → Advances ss (modify (set_status status_in_progress) completed n)
  next-Advances n t at_n waiting =
      let k = get_elem?-complete ss c n s t at_c running at_n waiting in
      let started = λ (st : String).
        count-modify status_pending status_in_progress st completed n t k waiting in
      record {
        normal = record {
          known =
              modify-IsKnown status_in_progress completed n (λ u. inr (inl refl)) IsKnown-completed;
          one_running = inl (omega (arith, normal.one_running, counts, started status_in_progress));
        };
        one_fewer = omega (arith, counts, started status_in_progress, started status_pending);
        one_more = omega (arith, counts, started status_completed);
        same_texts =
            texts-modify status_in_progress completed n ∙ texts-modify status_completed ss c;
      }
