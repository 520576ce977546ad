-- ===== src/Fetch/Prepare.antt =====
-- URLFetchTool.Execute of tools/builtin/url_fetch.go up to the request. Timeouts and byte limits are
-- left out, and so is the error of http.NewRequest, which a URL that was parsed does not give. A map
-- is visited in the order of its list.
use mister_morph.Fetch.Types.{
  secret_refused, no_resolver, invalid_binding, no_binding, access_refused, invalid_profile,
  profile_not_allowed, auth_not_enabled, profile_not_found, no_profile_store, undeclared_profile,
  Injection, FetchAuth, invalid_body, inject_format, FetchContext, local_file_path, FetchTool,
  secret_empty, private_by_guard, not_allowed_by_guard, no_guard_prefixes, FetchError, Libraries,
}
use mister_morph.Base.{
  trim_space, to_lower, String, Bool, true, false, not, ◌&&◌, ◌||◌, Option, none, some, [], ◌∷◌,
  ◌==◌, if◌then◌else◌,
}
use mister_morph.Base.Result.{Except, ok, err, ◌>>=◌, ◌>>◌, fail_if}
use mister_morph.Base.Json.{Value, Members, Elements, lookup}
use mister_morph.Guard.Types.{NetworkPolicy}
use mister_morph.Guard.Policy.{url_allowed_by_prefixes}
use mister_morph.Secrets.Types.{Url, Inject, Credential, ToolBinding, AuthProfile}
use mister_morph.Secrets.Access.{is_url_allowed, is_private_ip}
use mister_morph.Secrets.Profile.{validate_profile, validate_binding}
use mister_morph.Secrets.Store.{SkillAuthProfilePolicy, get_profile, has_text}
use Prim.Native.String

abbrev pub text_or_empty : Option String → String
text_or_empty none = ""
text_or_empty (some s) = s

-- A check that returns an error or nil
abbrev pub no_error {ℓ} : {E : Type ℓ} → Option E → (E → FetchError) → Except FetchError (Unit {0})
no_error none wrap = ok tt
no_error (some e) wrap = err (wrap e)

abbrev pub with_error {ℓ κ} :
    {E : Type ℓ} {A : Type κ} → Except E A → (E → FetchError) → Except FetchError A
with_error (ok a) wrap = ok a
with_error (err e) wrap = err (wrap e)

abbrev pub required {ℓ} : {A : Type ℓ} → Option A → FetchError → Except FetchError A
required none e = err e
required (some a) e = ok a

-- The policy of the skills does not allow the profile.
abbrev pub is_undeclared : String → Option SkillAuthProfilePolicy → Bool
is_undeclared id none = false
is_undeclared id (some policy) =
    SkillAuthProfilePolicy.enforce policy
    && not (has_text id (SkillAuthProfilePolicy.allowed policy))

module _ (lib : Libraries) where
  unfoldable pub is_denied_private_host : String → Bool
  is_denied_private_host host =
      let h = to_lower (trim_space host) in
      if h == "" || h == "localhost"
      then true
      else elim (Libraries.parse_ip lib h) [ none ↦ false | some ip ↦ is_private_ip ip ]

  abbrev pub has_no_prefixes : NetworkPolicy → Bool
  has_no_prefixes policy = elim (NetworkPolicy.allowed_url_prefixes policy) [
    | [] ↦ true
    | p ∷ ps ↦ false
  ]

  -- The check of the network policy of the guard
  unfoldable pub check_network : Option NetworkPolicy → Url → Except FetchError (Unit {0})
  unfolding is_denied_private_host
  check_network none u = ok tt
  check_network (some policy) u = do
    fail_if (has_no_prefixes policy) no_guard_prefixes
    fail_if
        (not (
          url_allowed_by_prefixes (Libraries.url_text lib u)
            (NetworkPolicy.allowed_url_prefixes policy)))
        not_allowed_by_guard
    fail_if (NetworkPolicy.deny_private_ips policy && is_denied_private_host (Url.hostname u))
        private_by_guard

  -- The case of a text in findExistingAbsPath
  unfoldable pub existing_path : String → String
  existing_path text =
      let s = trim_space text in
      if s == ""
      then ""
      else if Libraries.is_absolute lib s && Libraries.file_exists lib s
      then s
      else ""

  -- findExistingAbsPath on a value, on the members of an object and on the elements of an array
  unfoldable mutual
    unfolding existing_path

    pub find_existing_path : Value → String
    find_existing_path (Value.str s) = existing_path s
    find_existing_path (Value.object ms) = find_in_members ms
    find_existing_path (Value.array es) = find_in_elements es
    find_existing_path _ = ""

    pub find_in_members : Members → String
    find_in_members Members.no_members = ""
    find_in_members (Members.member ms k v) =
        let found = find_in_members ms in
        let last = find_existing_path v in if found == "" then last else found

    pub find_in_elements : Elements → String
    find_in_elements Elements.no_elements = ""
    find_in_elements (Elements.element es v) =
        let found = find_in_elements es in
        let last = find_existing_path v in if found == "" then last else found

  -- The body that is not a text, and that it is JSON
  unfoldable pub json_body : Value → String → Except FetchError (Option String × Bool)
  unfolding find_existing_path
  json_body v auth_profile_id = do
    let offending = find_existing_path v
    fail_if (not (auth_profile_id == "") && not (offending == "")) (local_file_path offending)
    text ← required (Libraries.marshal lib v) invalid_body
    ok (some text, true)

  -- The body of the request, and whether Content-Type is application/json by default
  unfoldable pub request_body : Option Value → String → Except FetchError (Option String × Bool)
  unfolding json_body
  request_body none auth_profile_id = ok (none, false)
  request_body (some Value.null) auth_profile_id = ok (none, false)
  request_body (some (Value.str s)) auth_profile_id = ok (some s, false)
  request_body (some v) auth_profile_id = json_body v auth_profile_id

  unfoldable pub format_injected_secret : String → String → Except FetchError String
  format_injected_secret format text =
      let secret = trim_space text in
      let kind = to_lower (trim_space format) in
      if secret == ""
      then err secret_empty
      else if kind == "" || kind == "raw"
      then ok secret
      else if kind == "bearer"
      then ok (String.◌++◌ "Bearer " secret)
      else if kind == "basic"
      then ok (String.◌++◌ "Basic " (Libraries.encode_base64 lib secret))
      else err inject_format

  -- The tests that come before the profile is looked up
  unfoldable pub may_use_profile : FetchTool → FetchContext → String → Except FetchError FetchAuth
  may_use_profile tool ctx id = do
    fail_if (is_undeclared id (FetchContext.skill_policy ctx)) undeclared_profile
    auth ← required (FetchTool.auth tool) auth_not_enabled
    fail_if (not (FetchAuth.enabled auth)) auth_not_enabled
    fail_if (not (has_text id (FetchAuth.allow_profiles auth))) profile_not_allowed
    ok auth

  -- The profile `id`, validated, if it allows the URL
  unfoldable pub usable_profile :
      FetchTool → FetchContext → Url → String → String → Except FetchError (FetchAuth × AuthProfile)
  unfolding may_use_profile
  usable_profile tool ctx u method id = do
    auth ← may_use_profile tool ctx id
    store ← required (FetchAuth.profiles auth) no_profile_store
    found ← required (get_profile store id) profile_not_found
    p ← with_error (validate_profile (Libraries.parse_url lib) found) invalid_profile
    no_error (is_url_allowed (Libraries.parse_url lib) (Libraries.parse_ip lib) p u method)
        access_refused
    ok (auth, p)

  -- The secret of a profile, in the header of its binding
  unfoldable pub inject_secret :
      FetchAuth → AuthProfile → Except FetchError (Injection × ToolBinding)
  unfolding format_injected_secret
  inject_secret auth p = do
    b ← required (lookup "url_fetch" (AuthProfile.bindings p)) no_binding
    no_error (validate_binding b) invalid_binding
    resolve ← required (FetchAuth.resolver auth) no_resolver
    secret ← with_error (resolve (Credential.secret_ref (AuthProfile.credential p))) secret_refused
    value ← format_injected_secret (Inject.format (ToolBinding.inject b)) secret
    ok (
      record { profile = p; name = trim_space (Inject.name (ToolBinding.inject b)); value = value },
      b,
    )

  -- The credential for the profile `id`, and the binding that it is sent by
  unfoldable pub authorize :
      FetchTool → FetchContext → Url → String → String → Except FetchError (Injection × ToolBinding)
  unfolding usable_profile inject_secret
  authorize tool ctx u method id = do
    (auth, p) ← usable_profile tool ctx u method id
    inject_secret auth p
