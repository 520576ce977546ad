-- ===== src/Base/Assoc.antt =====
-- A Go map with string keys as an association list: m[k] = v, and its laws.
use text.Mathlib.TextPositions.{eq_refl}
use text.Mathlib.TextEquality.{eq_iff}
use text.Mathlib.Text.{◌==◌}
use native.Mathlib.Omega.{arith}
use mister_morph.Base.Tests.{if◌then◌else◌}
use mister_morph.Base.Json.{lookup}
use mathlib.Core.Path.{◌≡◌, refl}
use mathlib.Core.Option.{some}
use mathlib.Core.List.{List, [], ◌∷◌}
use Prim.Native.String.{String}

module _ {ℓ} {V : Type ℓ} where
  unfoldable pub put : String → V → List (String × V) → List (String × V)
  put k v [] = (k, v) ∷ []
  put k v ((j, u) ∷ m) = if j == k then (j, v) ∷ m else (j, u) ∷ put k v m

  pub lookup-put :
      (k j : String) (v : V)
      → (m : List (String × V)) → lookup j (put k v m) ≡ (if k == j then some v else lookup j m)
  unfolding lookup put
  lookup-put k j v [] = refl
  lookup-put k j v ((i, u) ∷ m) =
      ground (arith, eq_iff k j, eq_iff i k, eq_iff i j, lookup-put k j v m)

  pub lookup-put_self : (k : String) (v : V) (m : List (String × V)) → lookup k (put k v m) ≡ some v
  lookup-put_self k v m = simp (lookup-put, eq_refl)
