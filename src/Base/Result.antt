-- ===== src/Base/Result.antt =====
-- A Go call that returns a value or an error.
use mathlib.Core.Path.{◌≡◌, refl}
use mathlib.Core.Bool.{Bool, true, false}
use native.Mathlib.Omega.{arith}

pub data Except {ℓ κ} (E : Type ℓ) (A : Type κ) : Type (ℓ ⊔ κ) where
  ok : A → Except E A
  err : E → Except E A

-- The next call, unless an error is returned.
infixl 5 ◌>>=◌ ◌>>◌
abbrev pub ◌>>=◌ {ℓ κ} : {E : Type ℓ} {A B : Type κ} → Except E A → (A → Except E B) → Except E B
err failure >>= next = err failure
ok value >>= next = next value

abbrev pub ◌>>◌ {ℓ} : {E A : Type ℓ} → Except E (Unit {ℓ}) → Except E A → Except E A
first >> next = first >>= λ _. next

-- An early return with an error, when the test is true
abbrev pub fail_if {ℓ} : {E : Type ℓ} → Bool → E → Except E (Unit {ℓ})
fail_if true failure = err failure
fail_if false failure = ok tt

pub bind-eq-ok {ℓ κ} :
    {E : Type ℓ} {A B : Type κ} (call : Except E A) (next : A → Except E B) (b : B)
    → (call >>= next) ≡ ok b
    → (a : A) × (call ≡ ok a) × (next a ≡ ok b)
bind-eq-ok (err failure) next b h = ground (arith, h)
bind-eq-ok (ok a) next b h = (a, refl, h)

pub fail_if-eq-ok {ℓ} :
    {E A : Type ℓ} (test : Bool) (failure : E) (next : Except E A) (a : A)
    → (fail_if test failure >> next) ≡ ok a
    → (test ≡ false) × (next ≡ ok a)
fail_if-eq-ok true failure next a h = ground (arith, h)
fail_if-eq-ok false failure next a h = (refl, h)

pub ok_injective {ℓ κ} :
    {E : Type ℓ} {A : Type κ} {a b : A} → ◌≡◌ {A = Except E A} (ok a) (ok b) → a ≡ b
ok_injective h = ground (arith, h)
