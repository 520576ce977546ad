-- ===== src/Fetch/Granted.antt =====
-- The profile whose credential url_fetch sends.
use mister_morph.Base.{String, ◌≡◌, refl, ap, ◌∙◌, false, not, Option, none, some, List, arith}
use mathlib.Core.Path.{subst}
use mister_morph.Base.Result.{Except, ok, err, bind-eq-ok, fail_if-eq-ok, ok_injective}
use mister_morph.Base.Json.{lookup}
use mister_morph.Fetch.Types.{
  FetchError, FetchTool, FetchContext, FetchAuth, Injection, Libraries, no_binding,
  undeclared_profile, auth_not_enabled, profile_not_allowed, no_profile_store, profile_not_found,
  invalid_profile, access_refused, invalid_binding, no_resolver, secret_refused,
}
use mister_morph.Fetch.Prepare.{
  no_error, authorize, with_error, required, may_use_profile, is_undeclared, format_injected_secret,
  usable_profile, inject_secret,
}
use mister_morph.Secrets.Types.{Url, AuthProfile, ToolBinding, Inject, Credential}
use mister_morph.Secrets.Profile.{validate_profile, validate_binding}
use mister_morph.Secrets.Store.{get_profile, has_text}
use mister_morph.Secrets.Access.{is_url_allowed}

required-eq-ok :
    {A : Type 0} (o : Option A) (e : FetchError) (a : A) → required o e ≡ ok a → o ≡ some a
required-eq-ok none e a h = ground (arith, h)
required-eq-ok (some b) e a h = ap some (ok_injective h)

with_error-eq-ok :
    {E A : Type 0} (x : Except E A) (wrap : E → FetchError) (a : A)
    → with_error x wrap ≡ ok a
    → x ≡ ok a
with_error-eq-ok (ok b) wrap a h = ap ok (ok_injective h)
with_error-eq-ok (err e) wrap a h = ground (arith, h)

no_error-eq-ok :
    {E : Type 0} (o : Option E) (wrap : E → FetchError) → no_error o wrap ≡ ok tt → o ≡ none
no_error-eq-ok none wrap h = refl
no_error-eq-ok (some e) wrap h = ground (arith, h)

module _ (lib : Libraries) where
  -- The tool may use the profile that a call names, and that profile passes its validation.
  unfoldable pub IsGranted : FetchTool → FetchContext → String → AuthProfile → Type 0
  IsGranted tool ctx id p =
      (auth : FetchAuth) × (store : List (String × AuthProfile)) × (found : AuthProfile)
      × (is_undeclared id (FetchContext.skill_policy ctx) ≡ false)
      × (FetchTool.auth tool ≡ some auth)
      × (not (FetchAuth.enabled auth) ≡ false)
      × (not (has_text id (FetchAuth.allow_profiles auth)) ≡ false)
      × (FetchAuth.profiles auth ≡ some store)
      × (get_profile store id ≡ some found)
      × (validate_profile (Libraries.parse_url lib) found ≡ ok p)

  may_use_profile-Steps :
      (tool : FetchTool) (ctx : FetchContext) (id : String) (auth : FetchAuth)
      → may_use_profile lib tool ctx id ≡ ok auth
      → (is_undeclared id (FetchContext.skill_policy ctx) ≡ false)
        × (FetchTool.auth tool ≡ some auth)
        × (not (FetchAuth.enabled auth) ≡ false)
        × (not (has_text id (FetchAuth.allow_profiles auth)) ≡ false)
  unfolding may_use_profile
  may_use_profile-Steps tool ctx id auth h =
      let (declared, h1) =
        fail_if-eq-ok (is_undeclared id (FetchContext.skill_policy ctx)) undeclared_profile _ auth
          h in
      let (given, same, h2) =
        bind-eq-ok (required (FetchTool.auth tool) auth_not_enabled) _ auth h1 in
      let (enabled, h3) =
        fail_if-eq-ok (not (FetchAuth.enabled given)) auth_not_enabled _ auth h2 in
      let (listed, h4) =
        fail_if-eq-ok (not (has_text id (FetchAuth.allow_profiles given))) profile_not_allowed _
          auth h3 in
      subst
        (λ a.
          (is_undeclared id (FetchContext.skill_policy ctx) ≡ false)
          × (FetchTool.auth tool ≡ some a)
          × (not (FetchAuth.enabled a) ≡ false)
          × (not (has_text id (FetchAuth.allow_profiles a)) ≡ false))
        (ok_injective h4)
        (
          declared,
          required-eq-ok (FetchTool.auth tool) auth_not_enabled given same,
          enabled,
          listed,
        )

  usable_profile-IsGranted :
      (tool : FetchTool) (ctx : FetchContext) (u : Url) (method id : String) (auth : FetchAuth)
      (q : AuthProfile)
      → usable_profile lib tool ctx u method id ≡ ok (auth, q)
      → IsGranted tool ctx id q
        × (is_url_allowed (Libraries.parse_url lib) (Libraries.parse_ip lib) q u method ≡ none)
  unfolding usable_profile IsGranted
  usable_profile-IsGranted tool ctx u method id auth q h =
      let (given, h0, h1) = bind-eq-ok (may_use_profile lib tool ctx id) _ (auth, q) h in
      let (store, stored, h2) =
        bind-eq-ok (required (FetchAuth.profiles given) no_profile_store) _ (auth, q) h1 in
      let (found, got, h3) =
        bind-eq-ok (required (get_profile store id) profile_not_found) _ (auth, q) h2 in
      let (p, valid, h4) =
        bind-eq-ok (with_error (validate_profile (Libraries.parse_url lib) found) invalid_profile) _
          (auth, q) h3 in
      let (_, allowed, h5) =
        bind-eq-ok
          (no_error (is_url_allowed (Libraries.parse_url lib) (Libraries.parse_ip lib) p u method)
            access_refused)
          _ (auth, q) h4 in
      let same : p ≡ q = ap (λ x. x.1) (ok_injective h5) in
      let (declared, by, enabled, listed) = may_use_profile-Steps tool ctx id given h0 in
      (
        (
          given,
          store,
          found,
          declared,
          by,
          enabled,
          listed,
          required-eq-ok (FetchAuth.profiles given) no_profile_store store stored,
          required-eq-ok (get_profile store id) profile_not_found found got,
          with_error-eq-ok (validate_profile (Libraries.parse_url lib) found) invalid_profile p
                valid
              ∙ ap ok same,
        ),
        subst
            (λ x.
              is_url_allowed (Libraries.parse_url lib) (Libraries.parse_ip lib) x u method ≡ none)
            same
            (no_error-eq-ok
              (is_url_allowed (Libraries.parse_url lib) (Libraries.parse_ip lib) p u method)
              access_refused allowed),
      )

  inject_secret-profile :
      (auth : FetchAuth) (p : AuthProfile) (i : Injection) (b : ToolBinding)
      → inject_secret lib auth p ≡ ok (i, b)
      → p ≡ Injection.profile i
  unfolding inject_secret
  inject_secret-profile auth p i b h =
      let (bound, _, h1) =
        bind-eq-ok (required (lookup "url_fetch" (AuthProfile.bindings p)) no_binding) _ (i, b) h in
      let (_, _, h2) = bind-eq-ok (no_error (validate_binding bound) invalid_binding) _ (i, b) h1 in
      let (resolve, _, h3) =
        bind-eq-ok (required (FetchAuth.resolver auth) no_resolver) _ (i, b) h2 in
      let (secret, _, h4) =
        bind-eq-ok
          (with_error (resolve (Credential.secret_ref (AuthProfile.credential p))) secret_refused) _
          (i, b) h3 in
      let (value, _, h5) =
        bind-eq-ok (format_injected_secret lib (Inject.format (ToolBinding.inject bound)) secret) _
          (i, b) h4 in
      ap (λ x. Injection.profile x.0) (ok_injective h5)

  pub authorize-IsGranted :
      (tool : FetchTool) (ctx : FetchContext) (u : Url) (method id : String) (i : Injection)
      (b : ToolBinding)
      → authorize lib tool ctx u method id ≡ ok (i, b)
      → IsGranted tool ctx id (Injection.profile i)
        × (is_url_allowed
              (Libraries.parse_url lib)
              (Libraries.parse_ip lib)
              (Injection.profile i)
              u
              method
            ≡ none)
  unfolding authorize
  authorize-IsGranted tool ctx u method id i b h =
      let ((auth, p), used, h1) = bind-eq-ok (usable_profile lib tool ctx u method id) _ (i, b) h in
      subst
        (λ q.
          IsGranted tool ctx id q
          × (is_url_allowed (Libraries.parse_url lib) (Libraries.parse_ip lib) q u method ≡ none))
        (inject_secret-profile auth p i b h1)
        (usable_profile-IsGranted tool ctx u method id auth p used)
