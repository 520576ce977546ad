-- ===== src/Agent/Limits/Examples.antt =====
-- A run on a host whose world counts the calls of the model.
use mister_morph.Base.{
  Option, Bool-cases, ◌≤◌, String, ℕ, suc, ◌+◌, ◌-◌, ◌≡◌, refl, inl, inr, none, some, [], ◌∷◌,
  arith, ◌==◌,
}
use mister_morph.Tools.{Tool, get}
use mister_morph.Agent.Types.{new_context}
use mister_morph.Agent.Limits.Tally.{Tally}
use mister_morph.Base.Json.{lookup}
use mathlib.Core.Path.{subst}
use mister_morph.Agent.Host.{Engine, GuardOps}
use mister_morph.Agent.Engine.ToolGuard.{active_guard}
use mister_morph.Agent.Engine.Loop.{run_loop}
use mister_morph.Agent.Limits.Counts.{Counted, Returned}
use mister_morph.Agent.Limits.Run.{run_loop-Returned}
use mister_morph.Agent.Examples.{host, start, bash, careful}

start-Counted : Counted 5 0 start.ctx
unfolding new_context
start-Counted = record { limit = refl; rounds = omega arith; calls = refl }

-- A host whose world counts the calls of the model
abbrev quiet_bash : Tool ℕ
quiet_bash = record bash {
  execute = λ policy params calls. record { observation = "ok"; error = none; world = calls };
}

abbrev counting : Engine ℕ
counting = record host {
  chat = λ r calls. ((host.chat r calls).0, suc calls);
  registry = ("bash", quiet_bash) ∷ [];
}

abbrev calls_so_far : ℕ → ℕ
calls_so_far n = n

some_injective : {A : Type 0} {a b : A} → ◌≡◌ {A = Option A} (some a) (some b) → a ≡ b
some_injective h = ground (arith, h)

only_careful : (g : GuardOps ℕ) → active_guard counting ≡ some g → careful ≡ g
unfolding active_guard
only_careful g h = some_injective h

only_bash :
    (name : String) (tool : Tool ℕ) → get counting.registry name ≡ some tool → quiet_bash ≡ tool
unfolding get lookup
only_bash name tool h = elim (Bool-cases ("bash" == name)) [
  | inl b ↦ some_injective (ground (arith, b, h))
  | inr b ↦ absurd (ground (arith, b, h))
]

counting-Tally : Tally counting calls_so_far
counting-Tally = record {
  chat = λ r w. refl;
  evaluate = λ g q m a w. subst (λ x. (x.evaluate m a w).1 ≡ w) (only_careful g q) refl;
  request = λ g q m a gr s b w.
      subst (λ x. (x.request_approval m a gr s b w).1 ≡ w) (only_careful g q) refl;
  hooks = tt;
  on_success = λ f q c n w. absurd (ground arith);
  on_update = λ f q c u w. absurd (ground arith);
  execute = λ name tool q policy params w.
      subst (λ x. (x.execute policy params w).world ≡ w) (only_bash name tool q) refl;
}

run_loop-Returned_example :
    (calls_so_far (run_loop counting start 0).world
      ≤ suc (start.ctx.max_steps - start.next_step + calls_so_far 0))
    × Returned 5 (suc (start.ctx.max_steps - start.next_step + 0)) (run_loop counting start 0)
run_loop-Returned_example =
    run_loop-Returned counting 5 calls_so_far 0 start 0 counting-Tally start-Counted
