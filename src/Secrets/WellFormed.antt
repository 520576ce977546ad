-- ===== src/Secrets/WellFormed.antt =====
-- What holds of the rules that parseURLPrefixRules of secrets/types.go returns.
use mister_morph.Secrets.Rules.{
  some_rules, collect, collect_one, parse_url_prefix_rules, is_seen, PrefixError, rule_of, add_rule,
  rule_key, rule_path, rule_from, effective_port,
}
use mister_morph.Secrets.Access.{rule_matches, clean_path, path_prefix_match, root_if_empty}
use mister_morph.Base.{
  to_lower, eq_refl, trim_space-trim_space, All-snoc, trim_space, is_blank, ◌≤◌, ◌<◌, String, ◌≡◌,
  refl, ◌≢◌, ◌⊎◌, inl, inr, Bool, true, false, not, ◌||◌, Option, none, some, List, [], ◌∷◌, ◌++◌,
  arith, ◌==◌, starts_with, eq_iff, ltb, leb, if◌then◌else◌, Bool-cases, All,
}
use mister_morph.Base.Result.{Except, ok, err}
use mister_morph.Base.Path.{clean}
use mister_morph.Secrets.Types.{Url, UrlPrefixRule}
use text.Mathlib.TextEquality.{starts_with_iff}
use mathlib.Core.Path.{subst}
use Prim.Native.String

-- A rule with the scheme http or https, a host, a port and a rooted path, that matches some URL.
unfoldable pub IsRule : UrlPrefixRule → Type 0
IsRule r =
    ((UrlPrefixRule.scheme r ≡ "http") ⊎ (UrlPrefixRule.scheme r ≡ "https"))
    × (UrlPrefixRule.host r ≢ "")
    × (0 < UrlPrefixRule.port r)
    × (UrlPrefixRule.port r ≤ 65535)
    × (starts_with (UrlPrefixRule.path_prefix r) "/" ≡ true)
    × ((u : Url) × (rule_matches u r ≡ true))

rule_path-IsRooted : (path : String) → starts_with (rule_path path) "/" ≡ true
unfolding rule_path
rule_path-IsRooted path =
    by_root (clean (if trim_space path == "" then "/" else trim_space path)) _ refl
  where
    by_root :
        (t : String) (b : Bool)
        → starts_with t "/" ≡ b
        → starts_with (if b then t else String.◌++◌ "/" t) "/" ≡ true
    by_root t true e = e
    by_root t false e = (starts_with_iff (String.◌++◌ "/" t) "/").1 (t, refl)

clean_path-rule_path :
    (u : Url) → clean_path (record u { path = trim_space (Url.path u) }) ≡ rule_path (Url.path u)
unfolding clean_path rule_path is_blank
clean_path-rule_path u = rw (trim_space-trim_space (Url.path u)) refl

path_prefix_match_self : (p : String) → path_prefix_match p p ≡ true
unfolding path_prefix_match
path_prefix_match_self p = ground (arith, eq_refl (root_if_empty (trim_space p)))

-- The rule of a URL matches the URL with its path trimmed.
rule_matches-rule_of :
    (u : Url) → rule_matches (record u { path = trim_space (Url.path u) }) (rule_of u) ≡ true
unfolding rule_matches rule_of effective_port
rule_matches-rule_of u =
    rw
      (
        eq_refl (to_lower (trim_space (Url.scheme u))),
        eq_refl (to_lower (trim_space (Url.hostname u))),
        clean_path-rule_path u,
        path_prefix_match_self (rule_path (Url.path u)),
      )
      (ground arith)

rule_from-IsRule :
    (raw : String) (o : Option Url) (r : UrlPrefixRule) → rule_from raw o ≡ ok r → IsRule r
unfolding rule_from rule_of IsRule
rule_from-IsRule raw none r h = ground (arith, h)
rule_from-IsRule raw (some u) r h =
    let rule = rule_of u in
    let (scheme, host, port, same) =
      by_tests (Url.has_user u)
        (not (is_blank (Url.fragment u)) || not (is_blank (Url.raw_query u)))
        (UrlPrefixRule.scheme rule == "http" || UrlPrefixRule.scheme rule == "https")
        (UrlPrefixRule.host rule == "")
        (leb (UrlPrefixRule.port rule) 0 || ltb 65535 (UrlPrefixRule.port rule)) _ _ _ _ _ h in
    subst IsRule same (
      a_scheme (UrlPrefixRule.scheme rule) (scheme),
      ground (arith, eq_iff (UrlPrefixRule.host rule) "", host),
      ground (arith, port),
      ground (arith, port),
      rule_path-IsRooted (Url.path u),
      (record u { path = trim_space (Url.path u) }, rule_matches-rule_of u),
    )
  where
    a_scheme : (s : String) → (s == "http" || s == "https") ≡ true → (s ≡ "http") ⊎ (s ≡ "https")
    a_scheme s h = elim (Bool-cases (s == "http")) [
      | inl b ↦ inl ((eq_iff s "http").0 b)
      | inr b ↦ inr ((eq_iff s "https").0 (ground (arith, b, h)))
    ]

    by_tests :
        (a b c d e : Bool) (x y z v w : PrefixError) {rule r : UrlPrefixRule}
        → (if a
            then err x
            else if b
            then err y
            else if not c
            then err z
            else if d
            then err v
            else if e
            then err w
            else ok rule)
          ≡ ok r
        → (c ≡ true) × (d ≡ false) × (e ≡ false) × (rule ≡ r)
    by_tests a b c d e x y z v w h = ground (arith, h)

-- No two rules have the same key.
unfoldable pub AreDistinct : List UrlPrefixRule → Type 0
AreDistinct [] = Unit
AreDistinct (r ∷ rules) = All (λ s. rule_key r ≢ rule_key s) rules × AreDistinct rules

snoc-AreDistinct :
    (r : UrlPrefixRule) (rules : List UrlPrefixRule)
    → is_seen r rules ≡ false
    → AreDistinct rules
    → AreDistinct (rules ++ (r ∷ []))
unfolding is_seen AreDistinct
snoc-AreDistinct r [] e h = (tt, tt)
snoc-AreDistinct r (s ∷ rules) e h = (
  All-snoc _ rules r h.0 (ground (arith, e, eq_iff (rule_key s) (rule_key r))),
  snoc-AreDistinct r rules (ground (arith, e)) h.1,
)

distinct_nil : AreDistinct []
unfolding AreDistinct
distinct_nil = tt

-- What the loop keeps true of the rules collected.
AreRules : List UrlPrefixRule → Type 0
AreRules rules = All IsRule rules × AreDistinct rules

add_rule-AreRules :
    (r : UrlPrefixRule) (rules : List UrlPrefixRule)
    → IsRule r
    → AreRules rules
    → AreRules (add_rule r rules)
unfolding add_rule AreRules
add_rule-AreRules r rules q h = by_seen _ refl
  where
    by_seen : (b : Bool) → is_seen r rules ≡ b → AreRules (if b then rules else rules ++ (r ∷ []))
    by_seen true e = h
    by_seen false e = (All-snoc IsRule rules r h.0 q, snoc-AreDistinct r rules e h.1)

module _ (parse_url : String → Option Url) where
  collect_one-AreRules :
      (raw : String) (out rules : List UrlPrefixRule)
      → AreRules out
      → collect_one parse_url raw out ≡ ok rules
      → AreRules rules
  unfolding collect_one
  collect_one-AreRules raw out rules h e =
      by_blank (raw == "") (rule_from raw (parse_url raw)) refl e
    where
      by_blank :
          (b : Bool) (x : Except PrefixError UrlPrefixRule)
          → rule_from raw (parse_url raw) ≡ x
          → (if b then ok out else elim x [ err e ↦ err e | ok rule ↦ ok (add_rule rule out) ])
            ≡ ok rules
          → AreRules rules
      by_blank true x q e = subst AreRules (ground (arith, e)) h
      by_blank false (err d) q e = ground (arith, e)
      by_blank false (ok rule) q e =
          subst AreRules (ground (arith, e))
            (add_rule-AreRules rule out (rule_from-IsRule raw (parse_url raw) rule q) h)

  collect-AreRules :
      (prefixes : List String) (out rules : List UrlPrefixRule)
      → AreRules out
      → collect parse_url prefixes out ≡ ok rules
      → AreRules rules
  unfolding collect
  collect-AreRules [] out rules h e = subst AreRules (ground (arith, e)) h
  collect-AreRules (text ∷ prefixes) out rules h e =
      by_one (λ more k. collect-AreRules prefixes more rules k) _ refl e
    where
      by_one :
          ((more : List UrlPrefixRule)
            → AreRules more
            → collect parse_url prefixes more ≡ ok rules
            → AreRules rules)
          → (x : Except PrefixError (List UrlPrefixRule))
          → collect_one parse_url (trim_space text) out ≡ x
          → (elim x [ err e ↦ err e | ok more ↦ collect parse_url prefixes more ]) ≡ ok rules
          → AreRules rules
      by_one k (err d) q e = ground (arith, e)
      by_one k (ok more) q e = k more (collect_one-AreRules (trim_space text) out more h q) e

  -- When parseURLPrefixRules succeeds there is a rule, every rule has the scheme http or https, a
  -- host, a port from 1 to 65535 and a rooted path, and matches some URL, and no two rules have the same
  -- key.
  pub parse_url_prefix_rules-AreRules :
      (prefixes : List String) (rules : List UrlPrefixRule)
      → parse_url_prefix_rules parse_url prefixes ≡ ok rules
      → (rules ≢ []) × All IsRule rules × AreDistinct rules
  unfolding parse_url_prefix_rules AreRules
  parse_url_prefix_rules-AreRules prefixes rules e = by_rules _ refl e
    where
      by_rules :
          (x : Except PrefixError (List UrlPrefixRule))
          → collect parse_url prefixes [] ≡ x
          → (elim x [ err e ↦ err e | ok found ↦ some_rules found ]) ≡ ok rules
          → (rules ≢ []) × All IsRule rules × AreDistinct rules
      by_rules (err d) q e = ground (arith, e)
      by_rules (ok []) q e = ground (arith, e)
      by_rules (ok (r ∷ found)) q e =
          let h = collect-AreRules prefixes [] (r ∷ found) (tt, distinct_nil) q in
          subst (λ l. (l ≢ []) × All IsRule l × AreDistinct l) (ground (arith, e))
            (λ n. ground (arith, n), h.0, h.1)
