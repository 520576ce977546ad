-- ===== src/Secrets/Access.antt =====
-- AuthProfile.IsURLAllowed of secrets/types.go. url.Parse and net.ParseIP come as functions.
use mister_morph.Base.{
  trim_space, to_lower, to_upper, is_blank, String, Bool, true, false, not, ◌&&◌, ◌||◌, Option,
  none, some, List, [], ◌∷◌, ◌==◌, starts_with, nat_eq, if◌then◌else◌,
}
use mister_morph.Base.Result.{Except, ok, err}
use mister_morph.Base.Path.{clean}
use mister_morph.Secrets.Types.{Url, Ip, UrlPrefixRule, Allow, AuthProfile}
use mister_morph.Secrets.Rules.{PrefixError, effective_port, parse_url_prefix_rules}
use Prim.Native.String

-- The errors of IsURLAllowed; `none` stands for the error nil.
pub data AccessError : Type 0 where
  userinfo : AccessError
  empty_host : AccessError
  method_not_allowed : String → AccessError
  localhost_not_allowed : AccessError
  private_ip_not_allowed : String → AccessError
  bad_prefixes : PrefixError → AccessError
  no_usable_rules : AccessError
  url_not_allowed : AccessError

-- The loop of stringInSliceFold
unfoldable has_fold : String → List String → Bool
has_fold n [] = false
has_fold n (s ∷ haystack) = to_lower (trim_space s) == n || has_fold n haystack

unfoldable pub string_in_slice_fold : String → List String → Bool
unfolding has_fold
string_in_slice_fold needle haystack =
    let n = to_lower (trim_space needle) in if n == "" then false else has_fold n haystack

unfoldable pub is_private_ip : Ip → Bool
is_private_ip ip =
    Ip.is_loopback ip
    || Ip.is_unspecified ip
    || Ip.is_link_local_unicast ip
    || Ip.is_link_local_multicast ip
    || Ip.is_private ip

abbrev pub root_if_empty : String → String
root_if_empty s = if s == "" then "/" else s

unfoldable pub path_prefix_match : String → String → Bool
path_prefix_match request_path prefix =
    let rp = root_if_empty (trim_space request_path) in
    let pp = root_if_empty (trim_space prefix) in
    pp == "/" || rp == pp || starts_with rp (String.◌++◌ pp "/")

-- cleanPath of IsURLAllowed
unfoldable pub clean_path : Url → String
clean_path u =
    let cleaned = clean (if is_blank (Url.path u) then "/" else Url.path u) in
    if starts_with cleaned "/" then cleaned else String.◌++◌ "/" cleaned

unfoldable pub rule_matches : Url → UrlPrefixRule → Bool
unfolding clean_path path_prefix_match
rule_matches u r =
    to_lower (trim_space (Url.scheme u)) == UrlPrefixRule.scheme r
    && to_lower (trim_space (Url.hostname u)) == UrlPrefixRule.host r
    && nat_eq (effective_port u) (UrlPrefixRule.port r)
    && path_prefix_match (clean_path u) (UrlPrefixRule.path_prefix r)

-- The loop over the rules
unfoldable pub any_rule : Url → List UrlPrefixRule → Bool
unfolding rule_matches
any_rule u [] = false
any_rule u (r ∷ rules) = rule_matches u r || any_rule u rules

unfoldable pub deny_private_ips : AuthProfile → Bool
deny_private_ips p = elim (Allow.deny_private_ips (AuthProfile.allow p)) [
  | none ↦ true
  | some b ↦ b
]

abbrev pub match_rules : Url → List UrlPrefixRule → Option AccessError
match_rules u [] = some no_usable_rules
match_rules u (r ∷ rules) = if any_rule u (r ∷ rules) then none else some url_not_allowed

module _ (parse_url : String → Option Url) (parse_ip : String → Option Ip) where
  -- The test of the host, when private addresses are denied
  unfoldable pub host_error : String → Option AccessError
  unfolding is_private_ip
  host_error host =
      if host == "localhost" then some localhost_not_allowed else elim (parse_ip host) [
        | none ↦ none
        | some ip ↦ if is_private_ip ip then some (private_ip_not_allowed host) else none
      ]

  -- The rules that IsURLAllowed uses: those parsed before, or the prefixes parsed now
  unfoldable pub usable_rules : Allow → Except PrefixError (List UrlPrefixRule)
  usable_rules allow = elim (Allow.parsed_url_prefixes allow) [
    | r ∷ rules ↦ ok (r ∷ rules)
    | [] ↦ elim (Allow.url_prefixes allow) [
      | [] ↦ ok []
      | p ∷ prefixes ↦ parse_url_prefix_rules parse_url (p ∷ prefixes)
    ]
  ]

  -- The path and the rules
  unfoldable pub check_rules : AuthProfile → Url → Option AccessError
  unfolding usable_rules any_rule
  check_rules p u = elim (usable_rules (AuthProfile.allow p)) [
    | err e ↦ some (bad_prefixes e)
    | ok rules ↦ match_rules u rules
  ]

  unfoldable pub is_url_allowed : AuthProfile → Url → String → Option AccessError
  unfolding host_error check_rules string_in_slice_fold deny_private_ips
  is_url_allowed p u method =
      let host = to_lower (trim_space (Url.hostname u)) in
      let m = to_upper (trim_space method) in
      if Url.has_user u
      then some userinfo
      else if host == ""
      then some empty_host
      else if not (string_in_slice_fold m (Allow.methods (AuthProfile.allow p)))
      then some (method_not_allowed m)
      else elim (if deny_private_ips p then host_error host else none) [
        | some e ↦ some e
        | none ↦ check_rules p u
      ]
