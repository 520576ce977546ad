-- ===== src/Secrets/Validated.antt =====
-- What AuthProfile.Validate of secrets/types.go leaves for IsURLAllowed.
use mister_morph.Secrets.Access.{
  AccessError, userinfo, empty_host, method_not_allowed, check_rules, usable_rules, host_error,
  deny_private_ips, no_usable_rules, bad_prefixes, is_url_allowed,
}
use mister_morph.Secrets.Profile.{
  empty_id, kind_required, secret_ref_required, url_prefixes_required, methods_required, or_error,
  from_prefixes, is_nil, validate_methods, validate_bindings, ProfileError, refused,
  url_fetch_required, validate_profile, validate_binding, validate_all_bindings, with_rules,
}
use mister_morph.Base.{
  to_lower, trim_space, ◌==◌, not, if◌then◌else◌, Bool, true, false, ap, All, ◌≢◌, is_blank, String,
  ◌≡◌, refl, Option, none, some, List, [], ◌∷◌, arith,
}
use mathlib.Core.Path.{subst}
use mister_morph.Base.Result.{bind-eq-ok, fail_if-eq-ok, ok_injective, Except, ok, err}
use mister_morph.Base.Json.{lookup}
use mister_morph.Secrets.Types.{Credential, Url, Ip, UrlPrefixRule, Allow, ToolBinding, AuthProfile}
use mister_morph.Secrets.Rules.{PrefixError, parse_url_prefix_rules}
use mister_morph.Secrets.WellFormed.{IsRule, AreDistinct, parse_url_prefix_rules-AreRules}

-- The binding of url_fetch is there, and valid.
unfoldable pub IsBound : List (String × ToolBinding) → Type 0
IsBound bindings =
    (b : ToolBinding) × (lookup "url_fetch" bindings ≡ some b) × (validate_binding b ≡ none)

validate_all_bindings-IsBound :
    (bindings : List (String × ToolBinding))
    → validate_all_bindings bindings ≡ none
    → IsBound bindings
unfolding validate_all_bindings IsBound
validate_all_bindings-IsBound bindings h = by_lookup _ refl h
  where
    by_lookup :
        (x : Option ToolBinding)
        → lookup "url_fetch" bindings ≡ x
        → (elim x [
          | none ↦ some url_fetch_required
          | some b ↦ refused "url_fetch" (validate_binding b) (validate_bindings bindings)
        ])
          ≡ none
        → (b : ToolBinding) × (lookup "url_fetch" bindings ≡ some b) × (validate_binding b ≡ none)
    by_lookup none q h = ground (arith, h)
    by_lookup (some b) q h = (b, q, ground (arith, h))

from_prefixes-eq-ok :
    {A : Type 0} (x : Except PrefixError A) (a : A) → from_prefixes x ≡ ok a → x ≡ ok a
from_prefixes-eq-ok (ok b) a h = ap ok (ok_injective h)
from_prefixes-eq-ok (err e) a h = ground (arith, h)

or_error-eq-ok : (o : Option ProfileError) → or_error o ≡ ok tt → o ≡ none
or_error-eq-ok none h = refl
or_error-eq-ok (some e) h = ground (arith, h)

-- A profile with good rules and a binding for url_fetch.
unfoldable pub IsReady : AuthProfile → Type 0
IsReady q =
    (Allow.parsed_url_prefixes (AuthProfile.allow q) ≢ [])
    × All IsRule (Allow.parsed_url_prefixes (AuthProfile.allow q))
    × AreDistinct (Allow.parsed_url_prefixes (AuthProfile.allow q))
    × IsBound (AuthProfile.bindings q)

-- An error that the prefixes of the profile are to blame for
abbrev is_prefix_fault : Option AccessError → Bool
is_prefix_fault (some (bad_prefixes e)) = true
is_prefix_fault (some no_usable_rules) = true
is_prefix_fault _ = false

has_rules : (q : AuthProfile) → IsReady q → Allow.parsed_url_prefixes (AuthProfile.allow q) ≢ []
unfolding IsReady
has_rules q h = h.0

module _ (parse_url : String → Option Url) where
  -- The profile has the rules of its prefixes, and a binding.
  unfoldable IsValidated : AuthProfile → AuthProfile → Type 0
  IsValidated p q =
      (rules : List UrlPrefixRule) × (parse_url_prefix_rules parse_url
          (Allow.url_prefixes (AuthProfile.allow p))
        ≡ ok rules)
      × (with_rules p rules ≡ q)
      × IsBound (AuthProfile.bindings p)

  validate_profile-IsValidated :
      (p q : AuthProfile) → validate_profile parse_url p ≡ ok q → IsValidated p q
  unfolding validate_profile IsValidated
  validate_profile-IsValidated p q h =
      let allow = AuthProfile.allow p in
      let (_, h1) = fail_if-eq-ok (is_blank (AuthProfile.id p)) empty_id _ q h in
      let (_, h2) =
        fail_if-eq-ok (is_blank (Credential.kind (AuthProfile.credential p))) kind_required _ q
          h1 in
      let (_, h3) =
        fail_if-eq-ok (is_blank (Credential.secret_ref (AuthProfile.credential p)))
          secret_ref_required _ q h2 in
      let (_, h4) =
        fail_if-eq-ok (is_nil (Allow.url_prefixes allow)) url_prefixes_required _ q h3 in
      let (_, h5) = fail_if-eq-ok (is_nil (Allow.methods allow)) methods_required _ q h4 in
      let (rules, parsed, h6) =
        bind-eq-ok (from_prefixes (parse_url_prefix_rules parse_url (Allow.url_prefixes allow))) _ q
          h5 in
      let (_, _, h7) = bind-eq-ok (or_error (validate_methods (Allow.methods allow))) _ q h6 in
      let (_, bound, h8) =
        bind-eq-ok (or_error (validate_all_bindings (AuthProfile.bindings p))) _ q h7 in
      (
        rules,
        from_prefixes-eq-ok (parse_url_prefix_rules parse_url (Allow.url_prefixes allow)) rules
            parsed,
        ok_injective h8,
        validate_all_bindings-IsBound (AuthProfile.bindings p)
            (or_error-eq-ok (validate_all_bindings (AuthProfile.bindings p)) bound),
      )

  check_rules-fine :
      (parse_ip : String → Option Ip) (q : AuthProfile) (u : Url) (l : List UrlPrefixRule)
      → Allow.parsed_url_prefixes (AuthProfile.allow q) ≡ l
      → l ≢ []
      → is_prefix_fault (check_rules parse_url parse_ip q u) ≡ false
  unfolding check_rules usable_rules
  check_rules-fine parse_ip q u [] e h = absurd (h refl)
  check_rules-fine parse_ip q u (r ∷ rules) e h = rw e (ground arith)

  host_error-fine :
      (parse_ip : String → Option Ip) (host : String)
      → is_prefix_fault (host_error parse_url parse_ip host) ≡ false
  unfolding host_error
  host_error-fine parse_ip host = ground arith

  is_url_allowed-fine :
      (parse_ip : String → Option Ip) (q : AuthProfile) (u : Url) (method : String)
      → Allow.parsed_url_prefixes (AuthProfile.allow q) ≢ []
      → is_prefix_fault (is_url_allowed parse_url parse_ip q u method) ≡ false
  unfolding is_url_allowed
  is_url_allowed-fine parse_ip q u method h =
      by_tests (Url.has_user u) (to_lower (trim_space (Url.hostname u)) == "") _
        (deny_private_ips q) _ _ _
        (host_error-fine parse_ip (to_lower (trim_space (Url.hostname u))))
        (check_rules-fine parse_ip q u _ refl h)
    where
      by_tests :
          (a b c d : Bool) (m : String) (o rest : Option AccessError)
          → is_prefix_fault o ≡ false
          → is_prefix_fault rest ≡ false
          → is_prefix_fault (
              if a
              then some userinfo
              else if b
              then some empty_host
              else if not c
              then some (method_not_allowed m)
              else elim (if d then o else none) [ some e ↦ some e | none ↦ rest ])
            ≡ false
      by_tests a b c true m none rest h k = ground (arith, h, k)
      by_tests a b c true m (some e) rest h k = ground (arith, h, k)
      by_tests a b c false m o rest h k = ground (arith, h, k)

  -- A profile that Validate accepts has rules, each with the scheme http or https, a host, a port from
  -- 1 to 65535 and a rooted path, each one matching some URL and no two with the same key, and a valid
  -- binding for url_fetch; and IsURLAllowed then never fails because of the prefixes, or because there
  -- is no rule.
  pub validate_profile-IsUsable :
      (parse_ip : String → Option Ip) (p q : AuthProfile) (u : Url) (method : String)
      → validate_profile parse_url p ≡ ok q
      → IsReady q
        × ((e : PrefixError) → is_url_allowed parse_url parse_ip q u method ≢ some (bad_prefixes e))
        × (is_url_allowed parse_url parse_ip q u method ≢ some no_usable_rules)
  unfolding IsValidated
  validate_profile-IsUsable parse_ip p q u method h =
      let (rules, parsed, same, bound) = validate_profile-IsValidated p q h in
      let ready : IsReady q = subst IsReady same (
        unfold IsReady in
        let (some_rule, are_rules, distinct) =
          parse_url_prefix_rules-AreRules parse_url _ rules parsed in
        (some_rule, are_rules, distinct, bound)) in
      let fine = is_url_allowed-fine parse_ip q u method (has_rules q ready) in
      (
        ready,
        λ e x. ground (arith, fine, ap is_prefix_fault x),
        λ x. ground (arith, fine, ap is_prefix_fault x),
      )
