-- ===== src/Guard/Policy.antt =====
-- guard/guard.go: what the guard decides about an action. url.Parse, net.ParseIP with the tests on
-- its result, and the redactor of guard/redact.go come as functions. Audit events are left out.
pub mod Passing
pub mod Exact
mod Examples
use mister_morph.Base.{
  trim_space, to_lower, is_blank, String, Bool, true, false, ◌&&◌, Option, none, some, List, [],
  ◌∷◌, ◌==◌, starts_with, nat_eq, if◌then◌else◌, length,
}
use mister_morph.Base.Json.{Params, get_string}
use mister_morph.Guard.Types.{
  Action, GuardResult, low, high, Decision, allow, allow_with_redact, require_approval, deny,
  NetworkPolicy, tool_call_pre, tool_call_post, output_publish, skill_install,
}

pub record Policy : Type 0 where
  pub enabled : Bool
  pub url_fetch : NetworkPolicy
  pub bash_requires_approval : Bool
  -- url.Parse, then Hostname
  pub hostname : String → Option String
  -- net.ParseIP succeeds, and the address is loopback, private, link-local or unspecified
  pub is_private_ip : String → Bool
  -- RedactString of the redactor, and whether it changed the text
  pub redact : Option (String → String × Bool)

abbrev pub allowed : GuardResult
allowed = record { risk_level = low; decision = allow; reasons = []; redacted_content = "" }

abbrev pub refused : Decision → String → GuardResult
refused decision reason = record {
  risk_level = high;
  decision = decision;
  reasons = reason ∷ [];
  redacted_content = "";
}

-- The loop of urlAllowedByPrefixes
unfoldable pub has_prefix_of : String → List String → Bool
has_prefix_of raw [] = false
has_prefix_of raw (p ∷ ps) =
    let rest = has_prefix_of raw ps in
    let prefix = trim_space p in
    if prefix == "" then rest else if starts_with raw prefix then true else rest

-- urlAllowedByPrefixes
unfoldable pub url_allowed_by_prefixes : String → List String → Bool
unfolding has_prefix_of
url_allowed_by_prefixes raw prefixes =
    let url = trim_space raw in if url == "" then false else has_prefix_of url prefixes

-- isDeniedPrivateHost
unfoldable pub is_denied_private_host : Policy → String → Bool
is_denied_private_host p host =
    let h = to_lower (trim_space host) in
    if h == "" then true else if h == "localhost" then true else p.is_private_ip h

abbrev pub text_or_empty : Option String → String
text_or_empty none = ""
text_or_empty (some s) = s

-- The checks of a URL that the guard has to judge.
unfoldable pub eval_url : Policy → String → GuardResult
unfolding url_allowed_by_prefixes is_denied_private_host
eval_url p url =
    if nat_eq (length p.url_fetch.allowed_url_prefixes) 0
    then refused deny "url_fetch_not_allowlisted"
    else elim (p.hostname url) [
      | none ↦ refused deny "invalid_url"
      | some host ↦
          if p.url_fetch.deny_private_ips && is_denied_private_host p host
          then refused deny "private_ip"
          else if url_allowed_by_prefixes url p.url_fetch.allowed_url_prefixes
          then allowed
          else refused deny "non_allowlisted_domain"
    ]

unfoldable pub eval_url_fetch : Policy → Params → GuardResult
unfolding eval_url get_string
eval_url_fetch p params =
    let url = trim_space (text_or_empty (get_string "url" params)) in
    if url == ""
    then allowed
    else if is_blank (text_or_empty (get_string "auth_profile" params))
    then eval_url p url
    else allowed

-- evalToolCallPre
unfoldable pub eval_tool_call_pre : Policy → Action → GuardResult
unfolding eval_url_fetch
eval_tool_call_pre p a =
    let name = trim_space (to_lower a.tool_name) in
    if name == "bash"
    then (if p.bash_requires_approval
        then refused require_approval "bash_requires_approval"
        else allowed)
    else if name == "url_fetch"
    then eval_url_fetch p a.tool_params
    else allowed

unfoldable pub redacted_result : String × Bool → GuardResult
redacted_result (text, changed) =
    if changed
    then record {
      risk_level = high;
      decision = allow_with_redact;
      reasons = "sensitive_content_redacted" ∷ [];
      redacted_content = text;
    }
    else allowed

-- evalToolCallPost and evalOutputPublish, which are the same
unfoldable pub eval_content : Policy → Action → GuardResult
unfolding redacted_result
eval_content p a =
    if is_blank a.content
    then allowed
    else elim p.redact [ none ↦ allowed | some redact ↦ redacted_result (redact a.content) ]

-- Evaluate
unfoldable pub evaluate : Policy → Action → GuardResult
unfolding eval_tool_call_pre eval_content
evaluate p a =
    if p.enabled
    then elim a.type [
      | tool_call_pre ↦ eval_tool_call_pre p a
      | tool_call_post ↦ eval_content p a
      | output_publish ↦ eval_content p a
      | skill_install ↦ allowed
    ]
    else allowed
