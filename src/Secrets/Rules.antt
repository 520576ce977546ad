-- ===== src/Secrets/Rules.antt =====
-- parseURLPrefixRules of secrets/types.go. url.Parse comes as a function.
use mister_morph.Base.{
  trim_space, to_lower, atoi, concat, is_blank, ℕ, String, Bool, false, not, ◌||◌, Option, none,
  some, List, [], ◌∷◌, ◌++◌, ◌==◌, starts_with, ltb, leb, if◌then◌else◌,
}
use mister_morph.Base.Result.{Except, ok, err}
use mister_morph.Base.Path.{clean}
use mister_morph.Base.Print.{show_nat}
use mister_morph.Secrets.Types.{Url, UrlPrefixRule}
use Prim.Native.String

-- The errors of parseURLPrefixRules, with the prefix that each names.
pub data PrefixError : Type 0 where
  invalid_url : String → PrefixError
  prefix_with_userinfo : String → PrefixError
  with_query : String → PrefixError
  unsupported_scheme : String → PrefixError
  empty_prefix_host : String → PrefixError
  invalid_port : String → PrefixError
  no_prefixes : PrefixError

unfoldable pub effective_port : Url → ℕ
effective_port u =
    let port = trim_space (Url.port u) in
    let scheme = to_lower (trim_space (Url.scheme u)) in
    if port == ""
    then (if scheme == "http" then 80 else if scheme == "https" then 443 else 0)
    else elim (atoi port) [ some n ↦ n | none ↦ 0 ]

-- The path of a rule
unfoldable pub rule_path : String → String
rule_path path =
    let trimmed = trim_space path in
    let cleaned = clean (if trimmed == "" then "/" else trimmed) in
    if starts_with cleaned "/" then cleaned else String.◌++◌ "/" cleaned

unfoldable pub rule_of : Url → UrlPrefixRule
unfolding rule_path effective_port
rule_of u = record {
  scheme = to_lower (trim_space (Url.scheme u));
  host = to_lower (trim_space (Url.hostname u));
  port = effective_port u;
  path_prefix = rule_path (Url.path u);
}

-- The tests of one prefix; `raw` is the trimmed text.
unfoldable pub rule_from : String → Option Url → Except PrefixError UrlPrefixRule
unfolding rule_of effective_port
rule_from raw none = err (invalid_url raw)
rule_from raw (some u) =
    let rule = rule_of u in
    if Url.has_user u
    then err (prefix_with_userinfo raw)
    else if not (is_blank (Url.fragment u)) || not (is_blank (Url.raw_query u))
    then err (with_query raw)
    else if not (UrlPrefixRule.scheme rule == "http" || UrlPrefixRule.scheme rule == "https")
    then err (unsupported_scheme raw)
    else if UrlPrefixRule.host rule == ""
    then err (empty_prefix_host raw)
    else if leb (UrlPrefixRule.port rule) 0 || ltb 65535 (UrlPrefixRule.port rule)
    then err (invalid_port raw)
    else ok rule

unfoldable pub rule_key : UrlPrefixRule → String
rule_key r = concat (
    UrlPrefixRule.scheme r
    ∷ "|"
    ∷ UrlPrefixRule.host r
    ∷ "|"
    ∷ show_nat (UrlPrefixRule.port r)
    ∷ "|"
    ∷ UrlPrefixRule.path_prefix r
    ∷ [])

-- `seen` of the loop, as the rules collected so far
unfoldable pub is_seen : UrlPrefixRule → List UrlPrefixRule → Bool
unfolding rule_key
is_seen r [] = false
is_seen r (s ∷ rules) = rule_key s == rule_key r || is_seen r rules

unfoldable pub add_rule : UrlPrefixRule → List UrlPrefixRule → List UrlPrefixRule
unfolding is_seen
add_rule r rules = if is_seen r rules then rules else rules ++ (r ∷ [])

abbrev pub some_rules : List UrlPrefixRule → Except PrefixError (List UrlPrefixRule)
some_rules [] = err no_prefixes
some_rules (r ∷ rules) = ok (r ∷ rules)

module _ (parse_url : String → Option Url) where
  -- One turn of the loop of parseURLPrefixRules on a trimmed text
  unfoldable pub collect_one : String → List UrlPrefixRule → Except PrefixError (List UrlPrefixRule)
  unfolding rule_from add_rule
  collect_one raw out =
      if raw == ""
      then ok out
      else elim (rule_from raw (parse_url raw)) [ err e ↦ err e | ok rule ↦ ok (add_rule rule out) ]

  -- The loop, with `out`
  unfoldable pub collect :
      List String → List UrlPrefixRule → Except PrefixError (List UrlPrefixRule)
  unfolding collect_one
  collect [] out = ok out
  collect (text ∷ prefixes) out = elim (collect_one (trim_space text) out) [
    | err e ↦ err e
    | ok rules ↦ collect prefixes rules
  ]

  unfoldable pub parse_url_prefix_rules : List String → Except PrefixError (List UrlPrefixRule)
  unfolding collect
  parse_url_prefix_rules prefixes = elim (collect prefixes []) [
    | err e ↦ err e
    | ok rules ↦ some_rules rules
  ]
