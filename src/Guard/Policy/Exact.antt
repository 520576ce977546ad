-- ===== src/Guard/Policy/Exact.antt =====
-- Exactly the calls that pass are allowed by the guard of guard/guard.go.
use mister_morph.Base.{
  trim_space, trim_space-trim_space, String, ◌≡◌, ◌≢◌, ◌↔◌, inl, inr, true, false, List, arith,
  ◌==◌, eq_iff, nat_eq, Bool-cases, length,
}
use mister_morph.Base.Json.{get_string}
use mister_morph.Guard.Types.{Action, allow, tool_call_pre}
use mister_morph.Guard.Policy.{
  Policy, evaluate, eval_tool_call_pre, eval_url_fetch, eval_url, url_allowed_by_prefixes,
  has_prefix_of, text_or_empty,
}
use mister_morph.Guard.Policy.Passing.{
  HasPrefix, first, later, IsListed, Passes, any_tool, bash_call, no_url, own_profile, listed_url,
  url_of, name_of, evaluate-Passes,
}

HasPrefix-has_prefix_of :
    (url : String) (ps : List String) → HasPrefix url ps → has_prefix_of url ps ≡ true
unfolding has_prefix_of
HasPrefix-has_prefix_of url _ (first {p} {ps} named starts) =
    ground (arith, eq_iff (trim_space p) "")
HasPrefix-has_prefix_of url _ (later {p} {ps} h) = ground (arith, HasPrefix-has_prefix_of url ps h)

not_none : (url : String) (ps : List String) → HasPrefix url ps → nat_eq (length ps) 0 ≡ false
not_none url _ (first a b) = ground arith
not_none url _ (later h) = ground arith

IsListed-eval_url :
    (p : Policy) (raw : String)
    → trim_space raw ≢ ""
    → IsListed p (trim_space raw)
    → (eval_url p (trim_space raw)).decision ≡ allow
unfolding eval_url url_allowed_by_prefixes
IsListed-eval_url p raw named h = ground (
  arith,
  h.parsed,
  h.not_private,
  trim_space-trim_space raw,
  eq_iff (trim_space raw) "",
  not_none (trim_space raw) p.url_fetch.allowed_url_prefixes h.prefix,
  HasPrefix-has_prefix_of (trim_space raw) p.url_fetch.allowed_url_prefixes h.prefix,
)

eval-no_url :
    (p : Policy) (a : Action)
    → name_of a ≡ "url_fetch"
    → url_of a ≡ ""
    → (eval_tool_call_pre p a).decision ≡ allow
unfolding eval_tool_call_pre eval_url_fetch
eval-no_url p a x y = ground (
  arith,
  eq_iff (name_of a) "bash",
  eq_iff (name_of a) "url_fetch",
  eq_iff "bash" "url_fetch",
  eq_iff (url_of a) "",
)

Passes-eval : (p : Policy) (a : Action) → Passes p a → (eval_tool_call_pre p a).decision ≡ allow
unfolding eval_tool_call_pre eval_url_fetch
Passes-eval p a (any_tool x y) =
    ground (arith, eq_iff (name_of a) "bash", eq_iff (name_of a) "url_fetch")
Passes-eval p a (bash_call x y) = ground (arith, eq_iff (name_of a) "bash")
Passes-eval p a (no_url x y) = eval-no_url p a x y
Passes-eval p a (own_profile x y) =
    ground
      (arith, eq_iff (name_of a) "bash", eq_iff (name_of a) "url_fetch", eq_iff "bash" "url_fetch")
Passes-eval p a (listed_url x y) = elim (Bool-cases (url_of a == "")) [
  | inl b ↦ eval-no_url p a x ((eq_iff (url_of a) "").0 b)
  | inr b ↦ ground (
    arith,
    b,
    eq_iff (name_of a) "bash",
    eq_iff (name_of a) "url_fetch",
    eq_iff "bash" "url_fetch",
    IsListed-eval_url p (text_or_empty (get_string "url" a.tool_params))
        (λ h. ground (arith, eq_iff (url_of a) "")) y,
  )
]

-- An enabled guard allows a tool call exactly if the tool is neither bash nor url_fetch, or it is bash
-- and bash needs no approval, or it is url_fetch and has no URL, an auth profile of its own, or a URL
-- that parses to a host that is not private where that is asked for, and begins with an allowed prefix.
pub evaluate-Passes_iff :
    (p : Policy) (a : Action)
    → p.enabled ≡ true
    → a.type ≡ tool_call_pre
    → ((evaluate p a).decision ≡ allow) ↔ Passes p a
unfolding evaluate
evaluate-Passes_iff p a on pre =
    (λ h. evaluate-Passes p a on pre h, λ h. ground (arith, Passes-eval p a h))
