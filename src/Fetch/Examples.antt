-- ===== src/Fetch/Examples.antt =====
-- A call of url_fetch with a profile, and one under a network policy.
use mister_morph.Fetch.Types.{
  FetchRequest, Injection, Libraries, FetchContext, FetchTool, header_not_listed,
}
use mister_morph.Base.{
  ℤ, pos, negsuc, is_minus_one, is_space, trim_left, trim_right, trim_space, to_lower, to_upper,
  atoi, concat, join, is_blank, trim_space-trim_space, text_lt, ℕ, zero, suc, ◌+◌, ◌-◌, ◌*◌, ◌≤◌,
  ◌<◌, String, ◌≡◌, refl, sym, ap, ◌∙◌, ◌≢◌, ◌↔◌, ◌⊎◌, inl, inr, Bool, true, false, not, ◌&&◌, ◌||◌,
  Option, none, some, List, [], ◌∷◌, ◌++◌, map, arith, ◌==◌, starts_with, eq_iff, eq_refl, ltb, leb,
  nat_eq, if◌then◌else◌, Bool-cases, Option-cases, length, get_elem?, modify, length-append, All,
  All-snoc, Any,
}
use mister_morph.Base.Result.{ok, err}
use mister_morph.Base.Json.{Params, Value, get_string, lookup, Members}
use mister_morph.Fetch.Request.{prepare, HeaderState, user_headers}
use mister_morph.Fetch.Redirects.{
  Sent, send_all, follow_redirects, check_redirect, check_with_profile, canonical_origin,
}
use mister_morph.Fetch.Steps.{profile_id}
use mister_morph.Fetch.Safety.{IsConfined, send_all-IsConfined}
use mister_morph.Fetch.Granted.{IsGranted}
use mister_morph.Fetch.Guarded.{Passes, send_all-Passes}
use mister_morph.Guard.Types.{NetworkPolicy}
use mister_morph.Secrets.Types.{Url}
use mister_morph.Secrets.Store.{resolve_secret, skill_policy, get_profile, has_text}
use mister_morph.Secrets.Examples.{
  url_at, example_parse_url, example_parse_ip, profile_with, one_rule,
}
use mister_morph.Base.Assoc.{put}
use mister_morph.Base.Print.{show_nat}
use mister_morph.Base.Path.{clean}
use mister_morph.Base.Split.{split}
use mister_morph.Fetch.Prepare.{check_network, request_body, authorize}
use mister_morph.Secrets.Profile.{validate_profile}
use mister_morph.Secrets.Rules.{parse_url_prefix_rules}
use mister_morph.Secrets.Access.{is_url_allowed}
use mister_morph.Fetch.Listed.{IsListed, user_headers-IsListed}
use Prim.Native.String

abbrev lib : Libraries
lib = record {
  parse_url = example_parse_url;
  url_text = λ u. String.◌++◌ "https://api.example" (Url.path u);
  parse_ip = example_parse_ip;
  canonical_key = λ s. s;
  encode_base64 = λ s. s;
  marshal = λ v. none;
  is_absolute = λ s. starts_with s "/";
  file_exists = λ s. false;
}

abbrev environment : String → Option String
environment name = if name == "MORPH_API_KEY" then some " s3cret " else none

abbrev tool : FetchTool
tool = record {
  enabled = true;
  user_agent = "mistermorph/1.0";
  allow_scheme = "http" ∷ "https" ∷ [];
  auth = some (record {
    enabled = true;
    allow_profiles = "api" ∷ [];
    profiles = some (("api", profile_with []) ∷ []);
    resolver = some (resolve_secret environment (("API_KEY", "MORPH_API_KEY") ∷ []));
  });
}

abbrev with_skills : FetchContext
with_skills = record {
  network_policy = none;
  skill_policy = some (skill_policy (" api " ∷ "" ∷ []) true);
}

abbrev policy : NetworkPolicy
policy = record {
  allowed_url_prefixes = "https://api.example/v1" ∷ [];
  deny_private_ips = true;
  follow_redirects = true;
  allow_proxy = false;
}

abbrev with_policy : FetchContext
with_policy = record { network_policy = some policy; skill_policy = none }

abbrev params : String → Params
params id = ("url", Value.str "https://api.example/v1") ∷ ("auth_profile", Value.str id) ∷ []

abbrev injection : Injection
injection = record { profile = profile_with one_rule; name = "X-Api-Key"; value = "s3cret" }

abbrev request : Option Injection → List (String × String) → FetchRequest
request i headers = record {
  url = url_at "/v1";
  method = "GET";
  headers = headers;
  body = none;
  injection = i;
}

abbrev agent : List (String × String)
agent = ("User-Agent", "mistermorph/1.0") ∷ []

abbrev with_secret : FetchRequest
with_secret = request (some injection) (agent ++ (("X-Api-Key", "s3cret") ∷ []))

call_prepared : prepare lib tool with_skills (params "api") ≡ ok with_secret
unfolding prepare trim_space get_string has_text to_lower check_network request_body authorize
    skill_policy get_profile validate_profile is_blank parse_url_prefix_rules concat show_nat clean
    split to_upper put lookup resolve_secret is_url_allowed
call_prepared = refl

abbrev targets : List (Url × String)
targets = (url_at "/v1/a", "GET") ∷ (url_at "/v2", "GET") ∷ (url_at "/v1/b", "GET") ∷ []

-- The second redirect leaves the profile, and ends the exchange.
two_sent : length (send_all lib with_skills with_secret targets) ≡ 2
unfolding send_all follow_redirects check_redirect check_with_profile canonical_origin
    is_url_allowed trim_space to_lower to_upper is_blank clean split concat parse_url_prefix_rules
    show_nat
two_sent = refl

send_all-IsConfined_example :
    IsGranted lib tool with_skills (profile_id lib (params "api")) (profile_with one_rule)
    × All (IsConfined lib injection (url_at "/v1")) (send_all lib with_skills with_secret targets)
    × (length (send_all lib with_skills with_secret targets) ≤ 4)
send_all-IsConfined_example =
    send_all-IsConfined lib tool with_skills (params "api") with_secret injection targets
      call_prepared refl

plainly_prepared : prepare lib tool with_policy (params "") ≡ ok (request none agent)
unfolding prepare trim_space mister_morph.Base.Json.get_string mister_morph.Secrets.Store.has_text
    to_lower mister_morph.Fetch.Prepare.check_network
    mister_morph.Guard.Policy.url_allowed_by_prefixes mister_morph.Fetch.Prepare.request_body
    is_blank mister_morph.Base.Assoc.put
plainly_prepared = refl

send_all-Passes_example :
    All
      (λ s. Passes lib policy (Sent.url s))
      (send_all lib with_policy (request none agent) targets)
send_all-Passes_example =
    send_all-Passes lib tool with_policy (params "") (request none agent) policy targets
      plainly_prepared refl refl

abbrev caller_headers : Value
caller_headers = Value.object (
    Members.member (Members.member Members.no_members " Accept " (Value.str " text/html "))
      "Content-Length" (Value.str "7"))

abbrev accept_only : HeaderState
accept_only = record {
  headers = ("Accept", "text/html") ∷ [];
  has_user_agent = false;
  has_content_type = false;
}

content_length_refused :
    user_headers lib "" none (some caller_headers) ≡ err (header_not_listed "Content-Length")
unfolding user_headers trim_space mister_morph.Fetch.Headers.is_denied_user_header to_lower
    mister_morph.Fetch.Headers.is_allowed_user_header
content_length_refused = refl

abbrev accept_header : Value
accept_header =
    Value.object (Members.member Members.no_members " Accept " (Value.str " text/html "))

accept_set : user_headers lib "" none (some accept_header) ≡ ok accept_only
unfolding user_headers trim_space mister_morph.Fetch.Headers.is_denied_user_header to_lower
    mister_morph.Fetch.Headers.is_allowed_user_header put
accept_set = refl

user_headers-IsListed_example :
    All {A = String × String} (λ h. IsListed lib "" none h.0) (("Accept", "text/html") ∷ [])
user_headers-IsListed_example =
    user_headers-IsListed lib "" none (some accept_header) accept_only accept_set
