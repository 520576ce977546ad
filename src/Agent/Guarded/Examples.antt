-- ===== src/Agent/Guarded/Examples.antt =====
-- The small host of the other examples, with the guard of guard/guard.go, which wants bash approved.
use mister_morph.Base.{
  trim_space, to_lower, ℕ, ◌≡◌, refl, ap, ◌≢◌, true, false, none, some, [], arith, eq_iff,
}
use mister_morph.Base.Result.{ok}
use mister_morph.Base.Json.{lookup}
use mister_morph.Guard.Policy.{Policy}
use mister_morph.Guard.Policy.Passing.{Passes, any_tool, bash_call, no_url, own_profile, listed_url}
use mister_morph.Tools.{Tool}
use mister_morph.Agent.Types.{ToolCall}
use mister_morph.Agent.Host.{Engine}
use mister_morph.Agent.Engine.ToolGuard.{pre_action}
use mister_morph.Agent.Engine.Loop.{run_loop}
use mister_morph.Agent.Examples.{host, start, IsUnused}
use mister_morph.Agent.Guarded.{Effects, guard_of, PassingRules, run_loop-Passes}
use mister_morph.Tools

abbrev strict : Policy
strict = record {
  enabled = true;
  url_fetch = record {
    allowed_url_prefixes = [];
    deny_private_ips = true;
    follow_redirects = false;
    allow_proxy = false;
  };
  bash_requires_approval = true;
  hostname = λ url. none;
  is_private_ip = λ s. false;
  redact = none;
}

abbrev no_effects : Effects ℕ
no_effects = record { audit = λ m a r w. w; request_approval = λ m a gr s b w. (ok "apr_1", w) }

abbrev guarded_host : Engine ℕ
guarded_host = record host { guard = some (guard_of strict no_effects) }

-- The only tool of the host is bash, and a call of it does not pass.
only_bash :
    (tc : ToolCall) (tool : Tool ℕ) → Tools.get host.registry tc.name ≡ some tool → tc.name ≡ "bash"
unfolding Tools.get lookup
only_bash tc tool q = ground (arith, eq_iff "bash" tc.name)

not_passing : (tc : ToolCall) → tc.name ≡ "bash" → ¬ Passes strict (pre_action tc)
unfolding trim_space to_lower
not_passing tc named passing = elim passing [
  | any_tool a b ↦ a is_bash
  | bash_call a q ↦ ground arith
  | no_url a q ↦ not_fetch a
  | own_profile a q ↦ not_fetch a
  | listed_url a q ↦ not_fetch a
]
  where
    is_bash : trim_space (to_lower tc.name) ≡ "bash"
    is_bash = ap (λ n. trim_space (to_lower n)) named

    not_fetch : trim_space (to_lower tc.name) ≢ "url_fetch"
    not_fetch h = ground (arith, is_bash, eq_iff "bash" "url_fetch")

strict-PassingRules : PassingRules guarded_host strict no_effects IsUnused
strict-PassingRules = record {
  guarded = refl;
  chat = λ r w p. p;
  audit = λ m a r w p. p;
  request = λ m a gr s b w p. p;
  hooks = tt;
  on_success = λ f q c n w p. absurd (ground arith);
  on_update = λ f q c u w p. absurd (ground arith);
  execute = λ tc tool q passing policy w p. absurd (not_passing tc (only_bash tc tool q) passing);
}

run_loop-Passes_example : IsUnused (run_loop guarded_host start 0).world
run_loop-Passes_example =
    run_loop-Passes guarded_host strict no_effects IsUnused refl strict-PassingRules start 0 refl
      refl
