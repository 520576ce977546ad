-- ===== src/Guard/Policy/Examples.antt =====
-- A guard of guard/guard.go with one allowed prefix.
use mister_morph.Base.{
  ◌↔◌, trim_space, to_lower, is_blank, ◌≡◌, refl, true, false, none, some, [], ◌∷◌, starts_with,
  if◌then◌else◌,
}
use mister_morph.Base.Json.{Value}
use mister_morph.Guard.Types.{Action, allow, tool_call_pre}
use mister_morph.Guard.Policy.{Policy, evaluate}
use mister_morph.Guard.Policy.Exact.{evaluate-Passes_iff}
use mister_morph.Guard.Policy.Passing.{Passes}

abbrev policy : Policy
policy = record {
  enabled = true;
  url_fetch = record {
    allowed_url_prefixes = "https://api.example/" ∷ [];
    deny_private_ips = true;
    follow_redirects = false;
    allow_proxy = false;
  };
  bash_requires_approval = true;
  hostname = λ url. if starts_with url "https://api.example/" then some "api.example" else none;
  is_private_ip = λ host. false;
  redact = none;
}

abbrev fetch : Action
fetch = record {
  type = tool_call_pre;
  tool_name = "Url_Fetch";
  tool_params = ("url", Value.str " https://api.example/v1 ") ∷ [];
  content = "";
  url = "";
  method = "";
}

evaluate-Passes_iff_example : ((evaluate policy fetch).decision ≡ allow) ↔ Passes policy fetch
evaluate-Passes_iff_example = evaluate-Passes_iff policy fetch refl refl

-- The call is allowed.
fetch_allowed : (evaluate policy fetch).decision ≡ allow
unfolding evaluate trim_space to_lower is_blank
fetch_allowed = refl
