-- ===== src/Agent/Plan/Counts.antt =====
-- How many steps of a plan have a status, and what the second loop of NormalizePlanSteps does to
-- those counts.
use mister_morph.Base.{
  ℕ, zero, suc, ◌+◌, String, ◌≡◌, refl, ap, ◌⊎◌, inl, inr, Bool, true, false, Option, none, some,
  List, [], ◌∷◌, arith, ◌==◌, eq_iff, if◌then◌else◌, Bool-cases, get_elem?, modify, All,
}
use mister_morph.Agent.Plan.{
  set_status, or_index, suc, push, some, Bool, ◌∷◌, none, Option, String, false, PlanStep, Scan,
  scan, status_pending, status_in_progress, status_completed, is_none,
}

abbrev pub has_status : String → PlanStep → Bool
has_status st s = s.status == st

abbrev pub count_status : String → List PlanStep → ℕ
count_status st [] = 0
count_status st (s ∷ ss) = (if has_status st s then 1 else 0) + count_status st ss

-- The three statuses of a plan step.
abbrev pub IsKnown : PlanStep → Type 0
IsKnown s =
    (s.status ≡ status_pending) ⊎ (s.status ≡ status_in_progress) ⊎ (s.status ≡ status_completed)

-- Once a step in progress was found, no other one stays.
scan_found :
    (i j : ℕ) (fp : Option ℕ) (ss : List PlanStep)
    → (count_status status_in_progress (scan i (some j) fp ss).steps ≡ 0)
      × ((scan i (some j) fp ss).in_progress ≡ some j)
unfolding scan
scan_found i j fp [] = (refl, refl)
scan_found i j fp (s ∷ ss) = ground (
  arith,
  scan_found (suc i) j fp ss,
  scan_found (suc i) j (if s.status == status_pending then or_index fp i else fp) ss,
)

-- With none found yet, either one step in progress is left, or there was none and nothing changed.
pub data Scanned (ss : List PlanStep) (r : Scan) : Type 0 where
  one_found :
      is_none r.in_progress ≡ false → count_status status_in_progress r.steps ≡ 1 → Scanned ss r
  none_found :
      r.in_progress ≡ none → r.steps ≡ ss → count_status status_in_progress ss ≡ 0 → Scanned ss r

push-Scanned :
    (s : PlanStep) (ss : List PlanStep) (r : Scan)
    → has_status status_in_progress s ≡ false
    → Scanned ss r
    → Scanned (s ∷ ss) (push s r)
push-Scanned s ss r h (one_found p q) = one_found p (ground arith)
push-Scanned s ss r h (none_found p q z) = none_found p (ap (λ t. s ∷ t) q) (ground arith)

pub scan-Scanned : (i : ℕ) (fp : Option ℕ) (ss : List PlanStep) → Scanned ss (scan i none fp ss)
unfolding scan
scan-Scanned i fp [] = none_found refl refl refl
scan-Scanned i fp (s ∷ ss) = elim (Bool-cases (has_status status_in_progress s)) [
  | inl b ↦ rw b (
      one_found (ground (arith, scan_found (suc i) i fp ss))
        (ground (arith, b, scan_found (suc i) i fp ss)))
  | inr b ↦ rw b (push-Scanned s ss _ b (scan-Scanned (suc i) _ ss))
]

-- An index that a loop has found from index `i` on: the first step's with a status, if one has it.
pub data FirstAt (st : String) (i : ℕ) (ss : List PlanStep) (o : Option ℕ) : Type 0 where
  no_such : o ≡ none → count_status st ss ≡ 0 → FirstAt st i ss o
  first_at :
      (k : ℕ) (s : PlanStep)
      → o ≡ some (i + k)
      → get_elem? ss k ≡ some s
      → has_status st s ≡ true
      → FirstAt st i ss o

pub later-FirstAt :
    (st : String) (i : ℕ) (s : PlanStep) (ss : List PlanStep) (o : Option ℕ)
    → has_status st s ≡ false
    → FirstAt st (suc i) ss o
    → FirstAt st i (s ∷ ss) o
later-FirstAt st i s ss o h (no_such p q) = no_such p (ground arith)
later-FirstAt st i s ss o h (first_at k t p q r) = first_at (suc k) t (ground arith) q r

-- A step has one status.
pub one_status :
    (s : PlanStep) (a b : String)
    → (a == b) ≡ false
    → has_status a s ≡ true
    → has_status b s ≡ false
one_status s a b d h = ground (arith, eq_iff s.status a, eq_iff s.status b, eq_iff a b)

-- A step whose status changes from one to another.
pub count-modify :
    (old new st : String) (ss : List PlanStep) (k : ℕ) (s : PlanStep)
    → get_elem? ss k ≡ some s
    → has_status old s ≡ true
    → count_status st (modify (set_status new) ss k) + (if old == st then 1 else 0)
      ≡ count_status st ss + (if new == st then 1 else 0)
count-modify old new st [] k s g h = cc
count-modify old new st (x ∷ ss) zero s g h =
    ground (arith, eq_iff x.status old, eq_iff x.status st, eq_iff old st)
count-modify old new st (x ∷ ss) (suc k) s g h = omega (arith, count-modify old new st ss k s g h)

pub modify-IsKnown :
    (st : String) (ss : List PlanStep) (k : ℕ)
    → ((s : PlanStep) → IsKnown (set_status st s))
    → All IsKnown ss
    → All IsKnown (modify (set_status st) ss k)
modify-IsKnown st [] k f h = tt
modify-IsKnown st (x ∷ ss) zero f h = (f x, h.1)
modify-IsKnown st (x ∷ ss) (suc k) f h = (h.0, modify-IsKnown st ss k f h.1)

-- A step with a status is counted.
pub none_at :
    (st : String) (ss : List PlanStep) (k : ℕ) (s : PlanStep)
    → get_elem? ss k ≡ some s
    → has_status st s ≡ true
    → count_status st ss ≡ 0
    → ⊥
none_at st [] k s g h f = cc
none_at st (x ∷ ss) zero s g h f = ground arith
none_at st (x ∷ ss) (suc k) s g h f = none_at st ss k s g h (omega arith)
