-- ===== src/Secrets/Examples.antt =====
-- A profile for https://api.example/v1, and a URL below it.
use mister_morph.Secrets.Types.{AuthProfile, Ip, UrlPrefixRule, Url, Allow}
use mister_morph.Base.{
  inr, ℤ, pos, negsuc, is_minus_one, is_space, trim_left, trim_right, trim_space, to_lower,
  to_upper, atoi, concat, join, is_blank, trim_space-trim_space, text_lt, ℕ, zero, suc, ◌+◌, ◌-◌,
  ◌*◌, ◌≤◌, ◌<◌, String, ◌≡◌, refl, sym, ap, ◌∙◌, ◌≢◌, ◌↔◌, ◌⊎◌, inl, Bool, true, false, not, ◌&&◌,
  ◌||◌, Option, none, some, List, [], ◌∷◌, ◌++◌, map, arith, ◌==◌, starts_with, eq_iff, eq_refl,
  ltb, leb, nat_eq, if◌then◌else◌, Bool-cases, Option-cases, length, get_elem?, modify,
  length-append, All, All-snoc, Any,
}
use mister_morph.Base.Result.{ok}
use mister_morph.Secrets.Rules.{parse_url_prefix_rules, PrefixError}
use mister_morph.Secrets.Access.{is_url_allowed, bad_prefixes, no_usable_rules}
use mister_morph.Secrets.Profile.{validate_profile}
use mister_morph.Secrets.Segments.{IsRooted}
use mister_morph.Secrets.Allowed.{IsSafe, is_url_allowed-IsSafe}
use mister_morph.Secrets.WellFormed.{IsRule, AreDistinct, parse_url_prefix_rules-AreRules}
use mister_morph.Secrets.Validated.{IsReady, validate_profile-IsUsable}

abbrev pub url_at : String → Url
url_at path = record {
  scheme = "https";
  has_user = false;
  hostname = "API.example";
  port = "";
  path = path;
  raw_query = "";
  fragment = "";
}

abbrev pub example_parse_url : String → Option Url
example_parse_url s = if s == "https://api.example/v1" then some (url_at "/v1") else none

abbrev pub example_parse_ip : String → Option Ip
example_parse_ip s = none

abbrev pub profile_with : List UrlPrefixRule → AuthProfile
profile_with rules = record {
  id = "api";
  credential = record { kind = "api_key"; secret_ref = "API_KEY" };
  allow = record {
    url_prefixes = " https://api.example/v1 " ∷ "" ∷ "https://api.example/v1" ∷ [];
    methods = "get" ∷ "POST" ∷ [];
    follow_redirects = true;
    allow_proxy = false;
    deny_private_ips = none;
    parsed_url_prefixes = rules;
  };
  bindings =
      (
        "url_fetch",
        record {
          inject = record { location = "header"; name = "X-Api-Key"; format = "" };
          allow_user_headers = false;
          user_header_allowlist = [];
        },
      )
      ∷ [];
}

abbrev pub one_rule : List UrlPrefixRule
one_rule = record { scheme = "https"; host = "api.example"; port = 443; path_prefix = "/v1" } ∷ []

rules_parsed :
    parse_url_prefix_rules example_parse_url
      (Allow.url_prefixes (AuthProfile.allow (profile_with [])))
    ≡ ok one_rule
unfolding parse_url_prefix_rules trim_space is_blank to_lower concat
    mister_morph.Base.Print.show_nat mister_morph.Base.Path.clean mister_morph.Base.Split.split
rules_parsed = refl

parse_url_prefix_rules-AreRules_example :
    (one_rule ≢ []) × All IsRule one_rule × AreDistinct one_rule
parse_url_prefix_rules-AreRules_example =
    parse_url_prefix_rules-AreRules example_parse_url
      (Allow.url_prefixes (AuthProfile.allow (profile_with []))) one_rule rules_parsed

url_allowed :
    is_url_allowed example_parse_url example_parse_ip
      (profile_with [])
      (url_at "/v1/../v1/./users/")
      "get"
    ≡ none
unfolding is_url_allowed to_lower trim_space to_upper parse_url_prefix_rules is_blank concat
    mister_morph.Base.Print.show_nat mister_morph.Base.Path.clean mister_morph.Base.Split.split
url_allowed = refl

url_at-IsRooted : IsRooted (url_at "/v1/../v1/./users/")
unfolding IsRooted
url_at-IsRooted = inr refl

is_url_allowed-IsSafe_example :
    IsSafe example_parse_url example_parse_ip (profile_with []) (url_at "/v1/../v1/./users/") "get"
is_url_allowed-IsSafe_example =
    is_url_allowed-IsSafe example_parse_url example_parse_ip (profile_with [])
      (url_at "/v1/../v1/./users/") "get" url_at-IsRooted url_allowed

profile_validated :
    validate_profile example_parse_url (profile_with []) ≡ ok (profile_with one_rule)
unfolding validate_profile is_blank parse_url_prefix_rules to_lower concat
    mister_morph.Base.Print.show_nat mister_morph.Base.Path.clean mister_morph.Base.Split.split
    to_upper
profile_validated = refl

validate_profile-IsUsable_example :
    IsReady (profile_with one_rule)
    × ((e : PrefixError)
        → is_url_allowed example_parse_url example_parse_ip
            (profile_with one_rule)
            (url_at "/v2")
            "PUT"
          ≢ some (bad_prefixes e))
    × (is_url_allowed example_parse_url example_parse_ip
          (profile_with one_rule)
          (url_at "/v2")
          "PUT"
        ≢ some no_usable_rules)
validate_profile-IsUsable_example =
    validate_profile-IsUsable example_parse_url example_parse_ip (profile_with [])
      (profile_with one_rule) (url_at "/v2") "PUT" profile_validated
