-- ===== src/Secrets/Profile.antt =====
-- The checks of a profile in secrets/types.go, the profile store of secrets/store.go, the resolver of
-- secrets/resolver.go and the policy of secrets/context.go. url.Parse and the environment come as
-- functions. A map is an association list, and is visited in the order of the list.
use mister_morph.Base.{
  trim_space, to_lower, to_upper, is_blank, ℕ, String, Bool, true, false, not, ◌&&◌, ◌||◌, Option,
  none, some, List, [], ◌∷◌, ◌==◌, leb, nat_eq, if◌then◌else◌,
}
use mister_morph.Base.Result.{◌>>=◌, ◌>>◌, fail_if, Except, ok, err}
use mister_morph.Base.Json.{lookup}
use mister_morph.Secrets.Types.{
  Url, UrlPrefixRule, Allow, Credential, Inject, ToolBinding, AuthProfile,
}
use mister_morph.Secrets.Rules.{PrefixError, parse_url_prefix_rules}
use Prim.Native.Char.{code}

pub data BindingError : Type 0 where
  location_required : BindingError
  unsupported_location : String → BindingError
  name_required : BindingError
  name_syntax : String → BindingError
  unsupported_format : String → BindingError

pub data ProfileError : Type 0 where
  empty_id : ProfileError
  kind_required : ProfileError
  secret_ref_required : ProfileError
  url_prefixes_required : ProfileError
  methods_required : ProfileError
  prefixes_refused : PrefixError → ProfileError
  unsupported_method : String → ProfileError
  url_fetch_required : ProfileError
  binding_refused : String → BindingError → ProfileError

unfoldable pub is_header_char : ℕ → Bool
is_header_char c =
    leb 65 c && leb c 90 || leb 97 c && leb c 122 || leb 48 c && leb c 57 || nat_eq c 45

-- headerNameRe on a text that is not empty
unfoldable pub is_header_name : String → Bool
unfolding is_header_char
is_header_name String.[] = true
is_header_name (String.◌∷◌ c s) = is_header_char (code c) && is_header_name s

abbrev pub default_format : String → String
default_format format = if format == "" then "raw" else format

-- ToolBinding.Validate; `none` stands for the error nil.
unfoldable pub validate_binding : ToolBinding → Option BindingError
unfolding is_header_name
validate_binding b =
    let location = to_lower (trim_space (Inject.location (ToolBinding.inject b))) in
    let name = trim_space (Inject.name (ToolBinding.inject b)) in
    let format = default_format (to_lower (trim_space (Inject.format (ToolBinding.inject b)))) in
    if location == ""
    then some location_required
    else if not (location == "header")
    then some (unsupported_location (Inject.location (ToolBinding.inject b)))
    else if name == ""
    then some name_required
    else if not (is_header_name name)
    then some (name_syntax name)
    else if not (format == "raw" || format == "bearer" || format == "basic")
    then some (unsupported_format (Inject.format (ToolBinding.inject b)))
    else none

abbrev is_supported_method : String → Bool
is_supported_method m = m == "GET" || m == "POST" || m == "PUT" || m == "PATCH" || m == "DELETE"

-- The loop over the methods
unfoldable pub validate_methods : List String → Option ProfileError
validate_methods [] = none
validate_methods (text ∷ methods) =
    let m = to_upper (trim_space text) in
    let rest = validate_methods methods in
    if m == "" || is_supported_method m then rest else some (unsupported_method m)

abbrev pub refused : String → Option BindingError → Option ProfileError → Option ProfileError
refused name (some e) rest = some (binding_refused name e)
refused name none rest = rest

-- The loop over the other bindings
unfoldable pub validate_bindings : List (String × ToolBinding) → Option ProfileError
unfolding validate_binding
validate_bindings [] = none
validate_bindings ((name, binding) ∷ bindings) =
    let rest = validate_bindings bindings in
    if is_blank name then rest else refused name (validate_binding binding) rest

-- The binding for url_fetch, and the loop over all of them
unfoldable pub validate_all_bindings : List (String × ToolBinding) → Option ProfileError
unfolding validate_bindings validate_binding lookup
validate_all_bindings bindings = elim (lookup "url_fetch" bindings) [
  | none ↦ some url_fetch_required
  | some b ↦ refused "url_fetch" (validate_binding b) (validate_bindings bindings)
]

-- p.Allow.ParsedURLPrefixes = rules
abbrev pub with_rules : AuthProfile → List UrlPrefixRule → AuthProfile
with_rules p rules = record p {
  allow = record (AuthProfile.allow p) { parsed_url_prefixes = rules };
}

abbrev pub or_error : Option ProfileError → Except ProfileError (Unit {0})
or_error (some e) = err e
or_error none = ok tt

abbrev pub from_prefixes {ℓ} : {A : Type ℓ} → Except PrefixError A → Except ProfileError A
from_prefixes (ok a) = ok a
from_prefixes (err e) = err (prefixes_refused e)

abbrev pub is_nil {ℓ} : {A : Type ℓ} → List A → Bool
is_nil [] = true
is_nil (x ∷ xs) = false

-- AuthProfile.Validate; the profile that it leaves is the result.
unfoldable pub validate_profile :
    (String → Option Url) → AuthProfile → Except ProfileError AuthProfile
unfolding validate_methods validate_all_bindings
validate_profile parse_url p = do
  fail_if (is_blank (AuthProfile.id p)) empty_id
  fail_if (is_blank (Credential.kind (AuthProfile.credential p))) kind_required
  fail_if (is_blank (Credential.secret_ref (AuthProfile.credential p))) secret_ref_required
  fail_if (is_nil (Allow.url_prefixes (AuthProfile.allow p))) url_prefixes_required
  fail_if (is_nil (Allow.methods (AuthProfile.allow p))) methods_required
  rules ←
      from_prefixes (parse_url_prefix_rules parse_url (Allow.url_prefixes (AuthProfile.allow p)))
  or_error (validate_methods (Allow.methods (AuthProfile.allow p)))
  or_error (validate_all_bindings (AuthProfile.bindings p))
  ok (with_rules p rules)
