-- ===== src/Secrets/Allowed.antt =====
-- What holds of a URL that AuthProfile.IsURLAllowed accepts.
use mister_morph.Secrets.Access.{
  match_rules, empty_host, bad_prefixes, userinfo, AccessError, usable_rules, is_private_ip,
  check_rules, host_error, deny_private_ips, any_rule, clean_path, string_in_slice_fold,
  rule_matches, is_url_allowed,
}
use mister_morph.Base.{
  trim_space, to_lower, to_upper, String, ◌≡◌, refl, ◌≢◌, ◌↔◌, inl, inr, Bool, true, false, not,
  ◌&&◌, Option, none, some, List, [], ◌∷◌, arith, ◌==◌, eq_iff, if◌then◌else◌, Bool-cases, All, Any,
}
use mister_morph.Base.Result.{Except, ok, err}
use mister_morph.Base.Split.{split}
use mister_morph.Base.Path.{StaysInside}
use mister_morph.Secrets.Types.{Url, Ip, UrlPrefixRule, Allow, AuthProfile}
use mister_morph.Secrets.Rules.{PrefixError, effective_port}
use mister_morph.Secrets.Segments.{
  Covers, path_prefix_match-Covers, IsRooted, clean_path-StaysInside,
}

abbrev host_of : Url → String
host_of u = to_lower (trim_space (Url.hostname u))

-- The rule admits the URL by its parts, and its path covers the cleaned one by segments.
unfoldable pub Admits : Url → UrlPrefixRule → Type 0
Admits u r =
    (to_lower (trim_space (Url.scheme u)) ≡ UrlPrefixRule.scheme r)
    × (host_of u ≡ UrlPrefixRule.host r)
    × (effective_port u ≡ UrlPrefixRule.port r)
    × Covers (UrlPrefixRule.path_prefix r) (clean_path u)

rule_matches-Admits : (u : Url) (r : UrlPrefixRule) → rule_matches u r ≡ true → Admits u r
unfolding rule_matches Admits
rule_matches-Admits u r h = by_tests _ _ _ _ h (λ a b c d.
    ((eq_iff _ _).0 a, (eq_iff _ _).0 b, ground (arith, c), path_prefix_match-Covers _ _ d))
  where
    by_tests :
        {X : Type 0} (a b c d : Bool)
        → (a && b && c && d) ≡ true
        → ((a ≡ true) → (b ≡ true) → (c ≡ true) → (d ≡ true) → X)
        → X
    by_tests true true true true h k = k refl refl refl refl
    by_tests true true true false h k = ground (arith, h)
    by_tests true true false d h k = ground (arith, h)
    by_tests true false c d h k = ground (arith, h)
    by_tests false b c d h k = ground (arith, h)

any_rule-Admits :
    (u : Url) (rules : List UrlPrefixRule) → any_rule u rules ≡ true → Any (Admits u) rules
unfolding any_rule
any_rule-Admits u [] h = ground (arith, h)
any_rule-Admits u (r ∷ rules) h = elim (Bool-cases (rule_matches u r)) [
  | inl b ↦ inl (rule_matches-Admits u r b)
  | inr b ↦ inr (any_rule-Admits u rules (ground (arith, b, h)))
]

module _ (parse_url : String → Option Url) (parse_ip : String → Option Ip) where
  -- What the tests of IsURLAllowed say together.
  Passes : AuthProfile → Url → String → Type 0
  Passes p u method =
      (Url.has_user u ≡ false)
      × (host_of u ≢ "")
      × (string_in_slice_fold (to_upper (trim_space method)) (Allow.methods (AuthProfile.allow p))
          ≡ true)
      × ((if deny_private_ips p then host_error parse_url parse_ip (host_of u) else none) ≡ none)
      × (check_rules parse_url parse_ip p u ≡ none)

  is_url_allowed-Passes :
      (p : AuthProfile) (u : Url) (method : String)
      → is_url_allowed parse_url parse_ip p u method ≡ none
      → Passes p u method
  unfolding is_url_allowed Passes
  is_url_allowed-Passes p u method h =
      by_tests _ (Url.has_user u) (host_of u == "")
        (string_in_slice_fold (to_upper (trim_space method)) (Allow.methods (AuthProfile.allow p)))
        (if deny_private_ips p then host_error parse_url parse_ip (host_of u) else none) h
        (eq_iff (host_of u) "")
    where
      by_tests :
          {H : Type 0} (e : AccessError) (a b c : Bool) (o : Option AccessError)
          {rest : Option AccessError}
          → (if a
              then some userinfo
              else if b
              then some empty_host
              else if not c
              then some e
              else elim o [ some x ↦ some x | none ↦ rest ])
            ≡ none
          → ((b ≡ true) ↔ H)
          → (a ≡ false) × ¬ H × (c ≡ true) × (o ≡ none) × (rest ≡ none)
      by_tests e false false true none h k = (refl, λ x. ground (arith, k.1 x), refl, refl, h)
      by_tests e true b c o h k = ground (arith, h)
      by_tests e false true c o h k = ground (arith, h)
      by_tests e false false false o h k = ground (arith, h)
      by_tests e false false true (some x) h k = ground (arith, h)

  -- The rules that are used exist, and one of them admits the URL.
  unfoldable pub IsCovered : AuthProfile → Url → Type 0
  IsCovered p u =
      (rules : List UrlPrefixRule) × (usable_rules parse_url parse_ip (AuthProfile.allow p)
        ≡ ok rules)
      × Any (Admits u) rules

  check_rules-IsCovered :
      (p : AuthProfile) (u : Url) → check_rules parse_url parse_ip p u ≡ none → IsCovered p u
  unfolding check_rules IsCovered
  check_rules-IsCovered p u h = by_rules _ refl h
    where
      by_rules :
          (r : Except PrefixError (List UrlPrefixRule))
          → usable_rules parse_url parse_ip (AuthProfile.allow p) ≡ r
          → elim r [ err e ↦ some (bad_prefixes e) | ok rules ↦ match_rules u rules ] ≡ none
          → (rules : List UrlPrefixRule) × (usable_rules parse_url parse_ip (AuthProfile.allow p)
              ≡ ok rules)
            × Any (Admits u) rules
      by_rules (err e) q h = ground (arith, h)
      by_rules (ok []) q h = ground (arith, h)
      by_rules (ok (r ∷ rules)) q h =
          (r ∷ rules, q, any_rule-Admits u (r ∷ rules) (ground (arith, h)))

  -- A host that the test for private addresses lets through.
  unfoldable pub IsPublicHost : String → Type 0
  IsPublicHost host =
      (host ≢ "localhost") × ((ip : Ip) → parse_ip host ≡ some ip → is_private_ip ip ≡ false)

  unfoldable pub IsSafe : AuthProfile → Url → String → Type 0
  IsSafe p u method =
      (Url.has_user u ≡ false)
      × (host_of u ≢ "")
      × (string_in_slice_fold (to_upper (trim_space method)) (Allow.methods (AuthProfile.allow p))
          ≡ true)
      × (deny_private_ips p ≡ true → IsPublicHost (host_of u))
      × IsCovered p u
      × All StaysInside (split (clean_path u))

  host_error-IsPublicHost :
      (host : String) → host_error parse_url parse_ip host ≡ none → IsPublicHost host
  unfolding host_error IsPublicHost
  host_error-IsPublicHost host h = (
    λ e. ground (arith, eq_iff host "localhost", e, h),
    λ ip e. ground (arith, eq_iff host "localhost", e, h),
  )

  -- The credential of a profile goes to a URL only if the URL has no user information, a host, an
  -- allowed method, a public host where private ones are denied, and some rule in use that has its
  -- scheme, host and port, and covers its cleaned path by whole segments, none of which is `..`.
  pub is_url_allowed-IsSafe :
      (p : AuthProfile) (u : Url) (method : String)
      → IsRooted u
      → is_url_allowed parse_url parse_ip p u method ≡ none
      → IsSafe p u method
  unfolding IsSafe Passes
  is_url_allowed-IsSafe p u method rooted h =
      let (user, host, allowed, public, covered) = is_url_allowed-Passes p u method h in
      (
        user,
        host,
        allowed,
        λ d. host_error-IsPublicHost (host_of u) (denied d public),
        check_rules-IsCovered p u covered,
        clean_path-StaysInside u rooted,
      )
    where
      denied :
          {b : Bool} {o : Option AccessError} → b ≡ true → (if b then o else none) ≡ none → o ≡ none
      denied d h = ground (arith, d, h)
