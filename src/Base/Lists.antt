-- ===== src/Base/Lists.antt =====
-- Lists measured and indexed by native numbers, under the library's names.
use Prim.Native.Nat.{ℕ, zero, suc, ◌+◌}
use mathlib.Core.Path.{◌≡◌}
use mathlib.Core.List.{List, [], ◌∷◌, ◌++◌}
use mathlib.Core.Option.{Option, none, some}
use mathlib.Core.Logic.{◌⊎◌}
use native.Mathlib.Omega.{arith}

module _ {ℓ} {A : Type ℓ} where
  abbrev pub length : List A → ℕ
  length [] = 0
  length (x ∷ xs) = suc (length xs)

  abbrev pub get_elem? : List A → ℕ → Option A
  get_elem? [] i = none
  get_elem? (x ∷ xs) zero = some x
  get_elem? (x ∷ xs) (suc i) = get_elem? xs i

  -- The element at an index is replaced by its image; an index out of range changes nothing.
  abbrev pub modify : (A → A) → List A → ℕ → List A
  modify f [] i = []
  modify f (x ∷ xs) zero = f x ∷ xs
  modify f (x ∷ xs) (suc i) = x ∷ modify f xs i

  pub length-append : (xs ys : List A) → length (xs ++ ys) ≡ length xs + length ys
  length-append [] ys = omega arith
  length-append (x ∷ xs) ys = omega (arith, length-append xs ys)

-- Every element satisfies the predicate.
abbrev pub All {ℓ κ} : {A : Type ℓ} (Q : A → Type κ) → List A → Type κ
All Q (first ∷ rest) = Q first × All Q rest
All Q [] = Unit

pub All-snoc {ℓ κ} :
    {A : Type ℓ} (Q : A → Type κ) (xs : List A) (y : A) → All Q xs → Q y → All Q (xs ++ (y ∷ []))
All-snoc Q [] y h q = (q, tt)
All-snoc Q (x ∷ xs) y h q = (h.0, All-snoc Q xs y h.1 q)

-- Some element satisfies the predicate.
abbrev pub Any {ℓ} : {A : Type ℓ} (Q : A → Type 0) → List A → Type 0
Any Q [] = ⊥
Any Q (x ∷ xs) = Q x ⊎ Any Q xs
