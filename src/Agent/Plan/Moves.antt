-- ===== src/Agent/Plan/Moves.antt =====
-- Which step AdvancePlanOnSuccess completes, and what it does to the others.
use mister_morph.Base.{
  ℕ, zero, suc, String, ◌≡◌, refl, ap, ◌∙◌, ◌⊎◌, inl, inr, true, false, some, List, [], ◌∷◌, arith,
  ◌==◌, Bool-cases, get_elem?, modify, nat_eq,
}
use mister_morph.Agent.Plan.Counts.{has_status, count_status, one_status, none_at}
use mister_morph.Agent.Plan.{
  set_status, PlanStep, status_pending, status_in_progress, status_completed,
}

-- The step that was in progress is completed, a completed one stays, and one that waits stays or is
-- started.
pub record Moves (ss done : List PlanStep) : Type 0 where
  pub completes :
      (i : ℕ) (s : PlanStep)
      → get_elem? ss i ≡ some s
      → has_status status_in_progress s ≡ true
      → get_elem? done i ≡ some (set_status status_completed s)
  pub keeps :
      (i : ℕ) (s : PlanStep)
      → get_elem? ss i ≡ some s
      → has_status status_completed s ≡ true
      → get_elem? done i ≡ some s
  pub starts :
      (i : ℕ) (s : PlanStep)
      → get_elem? ss i ≡ some s
      → has_status status_pending s ≡ true
      → (get_elem? done i ≡ some s) ⊎ (get_elem? done i ≡ some (set_status status_in_progress s))

get_elem?-modify :
    (f : PlanStep → PlanStep) (ss : List PlanStep) (i : ℕ) (s : PlanStep)
    → get_elem? ss i ≡ some s
    → get_elem? (modify f ss i) i ≡ some (f s)
get_elem?-modify f [] i s g = cc
get_elem?-modify f (x ∷ ss) zero s g = ground (arith, g)
get_elem?-modify f (x ∷ ss) (suc i) s g = get_elem?-modify f ss i s g

get_elem?-modify_other :
    (f : PlanStep → PlanStep) (ss : List PlanStep) (i j : ℕ)
    → nat_eq i j ≡ false
    → get_elem? (modify f ss i) j ≡ get_elem? ss j
get_elem?-modify_other f [] i j n = refl
get_elem?-modify_other f (x ∷ ss) zero zero n = ground (arith, n)
get_elem?-modify_other f (x ∷ ss) zero (suc j) n = refl
get_elem?-modify_other f (x ∷ ss) (suc i) zero n = refl
get_elem?-modify_other f (x ∷ ss) (suc i) (suc j) n =
    get_elem?-modify_other f ss i j (ground (arith, n))

-- A change of a step with another status leaves a step.
get_elem?-modify_apart :
    (a b : String) (f : PlanStep → PlanStep) (ss : List PlanStep) (i j : ℕ) (s t : PlanStep)
    → (b == a) ≡ false
    → get_elem? ss i ≡ some s
    → has_status a s ≡ true
    → get_elem? ss j ≡ some t
    → has_status b t ≡ true
    → get_elem? (modify f ss i) j ≡ some t
get_elem?-modify_apart a b f [] i j s t d g h k l = cc
get_elem?-modify_apart a b f (x ∷ ss) zero zero s t d g h k l =
    ground (arith, one_status t b a d l, g, h, k)
get_elem?-modify_apart a b f (x ∷ ss) zero (suc j) s t d g h k l = k
get_elem?-modify_apart a b f (x ∷ ss) (suc i) zero s t d g h k l = k
get_elem?-modify_apart a b f (x ∷ ss) (suc i) (suc j) s t d g h k l =
    get_elem?-modify_apart a b f ss i j s t d g h k l

-- If one step has the status, it stands at one index.
only_at :
    (st : String) (ss : List PlanStep) (i j : ℕ) (s t : PlanStep)
    → count_status st ss ≡ 1
    → get_elem? ss i ≡ some s
    → has_status st s ≡ true
    → get_elem? ss j ≡ some t
    → has_status st t ≡ true
    → i ≡ j
only_at st [] i j s t one g h k l = cc
only_at st (x ∷ ss) zero zero s t one g h k l = refl
only_at st (x ∷ ss) zero (suc j) s t one g h k l =
    absurd (none_at st ss j t k l (ground (arith, one, g, h)))
only_at st (x ∷ ss) (suc i) zero s t one g h k l =
    absurd (none_at st ss i s g h (ground (arith, one, k, l)))
only_at st (x ∷ ss) (suc i) (suc j) s t one g h k l = elim (Bool-cases (has_status st x)) [
  | inl b ↦ absurd (none_at st ss i s g h (ground (arith, one, b)))
  | inr b ↦ ap suc (only_at st ss i j s t (ground (arith, one, b)) g h k l)
]

module _ (ss : List PlanStep) (one : count_status status_in_progress ss ≡ 1) (c : ℕ) (s : PlanStep)
    (at_c : get_elem? ss c ≡ some s) (running : has_status status_in_progress s ≡ true) where
  abbrev completed : List PlanStep
  completed = modify (set_status status_completed) ss c

  at_completed :
      (i : ℕ) (t : PlanStep)
      → get_elem? ss i ≡ some t
      → has_status status_in_progress t ≡ true
      → get_elem? completed i ≡ some (set_status status_completed t)
  at_completed i t g h =
      let same : i ≡ c = only_at status_in_progress ss i c t s one g h at_c running in
      ap (λ k. get_elem? (modify (set_status status_completed) ss k) i) (cc)
      ∙ get_elem?-modify (set_status status_completed) ss i t g

  waits :
      (i : ℕ) (t : PlanStep)
      → get_elem? ss i ≡ some t
      → has_status status_pending t ≡ true
      → get_elem? completed i ≡ some t
  waits i t g h =
      get_elem?-modify_apart status_in_progress status_pending _ ss c i s t refl at_c running g h

  pub last-Moves : Moves ss completed
  last-Moves = record {
    completes = at_completed;
    keeps = λ i t g h.
        get_elem?-modify_apart status_in_progress status_completed _ ss c i s t refl at_c running g
          h;
    starts = λ i t g h. inl (waits i t g h);
  }

  pub next-Moves :
      (n : ℕ) (u : PlanStep)
      → get_elem? ss n ≡ some u
      → has_status status_pending u ≡ true
      → Moves ss (modify (set_status status_in_progress) completed n)
  next-Moves n u at_n waiting =
      let before : get_elem? completed n ≡ some u = waits n u at_n waiting in
      record {
        completes = λ i t g h.
            get_elem?-modify_apart status_pending status_completed _ completed n i u
              (set_status status_completed t) refl before waiting (at_completed i t g h) refl;
        keeps = λ i t g h.
            get_elem?-modify_apart status_pending status_completed _ completed n i u t refl before
              waiting (last-Moves.keeps i t g h) h;
        starts = λ i t g h. elim (Bool-cases (nat_eq n i)) [
          | inl b ↦
              let same : n ≡ i = ground (arith, b) in
              inr (
                ap (λ k. get_elem? (modify (set_status status_in_progress) completed k) i) same
                ∙ get_elem?-modify (set_status status_in_progress) completed i t (waits i t g h))
          | inr b ↦ inl (
              get_elem?-modify_other (set_status status_in_progress) completed n i b
              ∙ waits i t g h)
        ];
      }
