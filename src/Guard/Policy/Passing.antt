-- ===== src/Guard/Policy/Passing.antt =====
-- Which tool calls the guard of guard/guard.go lets pass.
use mister_morph.Base.{
  trim_space, to_lower, is_blank, trim_space-trim_space, String, ◌≡◌, refl, ◌≢◌, inl, inr, Bool,
  true, false, ◌&&◌, Option, none, some, List, [], ◌∷◌, arith, ◌==◌, starts_with, eq_iff, nat_eq,
  if◌then◌else◌, Bool-cases, length,
}
use mister_morph.Base.Json.{get_string}
use mister_morph.Guard.Types.{
  ActionType, tool_call_post, output_publish, skill_install, Action, GuardResult, allow,
  require_approval, deny, tool_call_pre,
}
use mister_morph.Guard.Policy.{
  eval_content, Policy, evaluate, eval_tool_call_pre, eval_url_fetch, eval_url,
  url_allowed_by_prefixes, has_prefix_of, refused, allowed, is_denied_private_host, text_or_empty,
}

-- One of the prefixes, trimmed and not empty, begins the URL.
pub data HasPrefix (url : String) : List String → Type 0 where
  first :
      {p : String} {ps : List String}
      → trim_space p ≢ ""
      → starts_with url (trim_space p) ≡ true
      → HasPrefix url (p ∷ ps)
  later : {p : String} {ps : List String} → HasPrefix url ps → HasPrefix url (p ∷ ps)

-- A URL that the allowlist admits, at a host that is not private if that is asked for.
pub record IsListed (p : Policy) (url : String) : Type 0 where
  pub host : String
  pub parsed : p.hostname url ≡ some host
  pub not_private : (p.url_fetch.deny_private_ips && is_denied_private_host p host) ≡ false
  pub prefix : HasPrefix url p.url_fetch.allowed_url_prefixes

abbrev pub url_of : Action → String
url_of a = trim_space (text_or_empty (get_string "url" a.tool_params))

abbrev pub name_of : Action → String
name_of a = trim_space (to_lower a.tool_name)

-- The calls that need neither an approval nor a denial.
pub data Passes (p : Policy) (a : Action) : Type 0 where
  any_tool : name_of a ≢ "bash" → name_of a ≢ "url_fetch" → Passes p a
  bash_call : name_of a ≡ "bash" → p.bash_requires_approval ≡ false → Passes p a
  no_url : name_of a ≡ "url_fetch" → url_of a ≡ "" → Passes p a
  own_profile :
      name_of a ≡ "url_fetch"
      → is_blank (text_or_empty (get_string "auth_profile" a.tool_params)) ≡ false
      → Passes p a
  listed_url : name_of a ≡ "url_fetch" → IsListed p (url_of a) → Passes p a

has_prefix_of-HasPrefix :
    (url : String) (ps : List String) → has_prefix_of url ps ≡ true → HasPrefix url ps
unfolding has_prefix_of
has_prefix_of-HasPrefix url [] h = absurd (ground arith)
has_prefix_of-HasPrefix url (p ∷ ps) h = elim (Bool-cases (trim_space p == "")) [
  | inl b ↦ later (has_prefix_of-HasPrefix url ps (ground arith))
  | inr b ↦ elim (Bool-cases (starts_with url (trim_space p))) [
    | inl c ↦ first (ground (arith, eq_iff (trim_space p) "")) c
    | inr c ↦ later (has_prefix_of-HasPrefix url ps (ground arith))
  ]
]

deny-allow : deny ≢ allow
deny-allow h = ground arith

-- A test whose first branch denies was false, if the decision is to allow.
not_denied :
    (b : Bool) (reason : String) (r : GuardResult)
    → (if b then refused deny reason else r).decision ≡ allow
    → (b ≡ false) × (r.decision ≡ allow)
not_denied true reason r h = absurd (deny-allow h)
not_denied false reason r h = (refl, h)

allowed_prefix :
    (raw : String) (ps : List String)
    → url_allowed_by_prefixes (trim_space raw) ps ≡ true
    → has_prefix_of (trim_space raw) ps ≡ true
unfolding url_allowed_by_prefixes
allowed_prefix raw ps h = ground (arith, trim_space-trim_space raw)

eval_url-IsListed :
    (p : Policy) (raw : String)
    → (eval_url p (trim_space raw)).decision ≡ allow
    → IsListed p (trim_space raw)
unfolding eval_url url_allowed_by_prefixes
eval_url-IsListed p raw h =
    of_host (p.hostname url) refl
      (not_denied (nat_eq (length p.url_fetch.allowed_url_prefixes) 0) "url_fetch_not_allowlisted" _
        h).1
  where
    url : String
    url = trim_space raw

    judge : String → GuardResult
    judge host =
        if p.url_fetch.deny_private_ips && is_denied_private_host p host
        then refused deny "private_ip"
        else if url_allowed_by_prefixes url p.url_fetch.allowed_url_prefixes
        then allowed
        else refused deny "non_allowlisted_domain"

    listed :
        (b : Bool)
        → url_allowed_by_prefixes url p.url_fetch.allowed_url_prefixes ≡ b
        → (if b then allowed else refused deny "non_allowlisted_domain").decision ≡ allow
        → HasPrefix url p.url_fetch.allowed_url_prefixes
    listed false q h' = absurd (deny-allow h')
    listed true q h' =
        has_prefix_of-HasPrefix url p.url_fetch.allowed_url_prefixes (allowed_prefix raw _ q)

    of_host :
        (o : Option String)
        → p.hostname url ≡ o
        → (elim o as (λ _. GuardResult) [
          | none ↦ refused deny "invalid_url"
          | some host ↦ judge host
        ]).decision
          ≡ allow
        → IsListed p url
    of_host none q h' = absurd (deny-allow h')
    of_host (some host) q h' =
        let (public, h'') =
          not_denied (p.url_fetch.deny_private_ips && is_denied_private_host p host) "private_ip" _
            h' in
        record { host = host; parsed = q; not_private = public; prefix = listed _ refl h'' }

eval_url_fetch-Passes :
    (p : Policy) (a : Action)
    → name_of a ≡ "url_fetch"
    → (eval_url_fetch p a.tool_params).decision ≡ allow
    → Passes p a
unfolding eval_url_fetch
eval_url_fetch-Passes p a named h = by_url (url_of a == "") refl h
  where
    profile : Bool
    profile = is_blank (text_or_empty (get_string "auth_profile" a.tool_params))

    by_profile :
        (b : Bool)
        → profile ≡ b
        → (if b then eval_url p (url_of a) else allowed).decision ≡ allow
        → Passes p a
    by_profile true q h' = listed_url named (eval_url-IsListed p _ h')
    by_profile false q h' = own_profile named q

    by_url :
        (b : Bool)
        → (url_of a == "") ≡ b
        → (if b then allowed else if profile then eval_url p (url_of a) else allowed).decision
          ≡ allow
        → Passes p a
    by_url true q h' = no_url named ((eq_iff (url_of a) "").0 q)
    by_url false q h' = by_profile profile refl h'

eval_tool_call_pre-Passes :
    (p : Policy) (a : Action) → (eval_tool_call_pre p a).decision ≡ allow → Passes p a
unfolding eval_tool_call_pre
eval_tool_call_pre-Passes p a h = by_name (name_of a == "bash") refl h
  where
    by_approval :
        (b : Bool)
        → p.bash_requires_approval ≡ b
        → name_of a ≡ "bash"
        → (if b then refused require_approval "bash_requires_approval" else allowed).decision
          ≡ allow
        → Passes p a
    by_approval true q named h' = absurd (ground arith)
    by_approval false q named h' = bash_call named q

    by_fetch :
        (b : Bool)
        → (name_of a == "url_fetch") ≡ b
        → name_of a ≢ "bash"
        → (if b then eval_url_fetch p a.tool_params else allowed).decision ≡ allow
        → Passes p a
    by_fetch true q other h' = eval_url_fetch-Passes p a ((eq_iff (name_of a) "url_fetch").0 q) h'
    by_fetch false q other h' = any_tool other (ground (arith, eq_iff (name_of a) "url_fetch"))

    by_name :
        (b : Bool)
        → (name_of a == "bash") ≡ b
        → (if b
            then (if p.bash_requires_approval
                then refused require_approval "bash_requires_approval"
                else allowed)
            else if name_of a == "url_fetch"
            then eval_url_fetch p a.tool_params
            else allowed).decision
          ≡ allow
        → Passes p a
    by_name true q h' =
        by_approval p.bash_requires_approval refl ((eq_iff (name_of a) "bash").0 q) h'
    by_name false q h' =
        by_fetch (name_of a == "url_fetch") refl (ground (arith, eq_iff (name_of a) "bash")) h'

-- An enabled guard allows a tool call only if the tool is neither bash nor url_fetch, or it is bash and
-- bash needs no approval, or it is url_fetch and has no URL, an auth profile of its own, or a URL that
-- parses to a host that is not private where that is asked for, and begins with an allowed prefix.
pub evaluate-Passes :
    (p : Policy) (a : Action)
    → p.enabled ≡ true
    → a.type ≡ tool_call_pre
    → (evaluate p a).decision ≡ allow
    → Passes p a
unfolding evaluate
evaluate-Passes p a on pre h = eval_tool_call_pre-Passes p a (pick p.enabled a.type on pre h)
  where
    pick :
        (b : Bool) (t : ActionType)
        → b ≡ true
        → t ≡ tool_call_pre
        → (if b
            then (elim t as (λ _. GuardResult) [
              | tool_call_pre ↦ eval_tool_call_pre p a
              | tool_call_post ↦ eval_content p a
              | output_publish ↦ eval_content p a
              | skill_install ↦ allowed
            ])
            else allowed).decision
          ≡ allow
        → (eval_tool_call_pre p a).decision ≡ allow
    pick true tool_call_pre b t h' = h'
    pick true tool_call_post b t h' = absurd (ground arith)
    pick true output_publish b t h' = absurd (ground arith)
    pick true skill_install b t h' = absurd (ground arith)
    pick false k b t h' = absurd (ground arith)
