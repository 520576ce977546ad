-- ===== src/Fetch/Headers.antt =====
-- The headers that a caller of url_fetch may set (tools/builtin/url_fetch.go).
use mister_morph.Base.{
  contains, trim_space, to_lower, String, Bool, true, false, not, ◌||◌, List, [], ◌∷◌, ◌==◌,
  starts_with, nat_eq, if◌then◌else◌,
}
use mister_morph.Secrets.Types.{ToolBinding}
use Prim.Native.Char.{code}

-- strings.EqualFold on ASCII letters
unfoldable pub equal_fold : String → String → Bool
equal_fold s t = to_lower s == to_lower t

abbrev allowed_user_header_names : List String
allowed_user_header_names =
    "accept" ∷ "content-type" ∷ "user-agent" ∷ "if-none-match" ∷ "if-modified-since" ∷ "range" ∷ []

unfoldable has_name : String → List String → Bool
has_name key [] = false
has_name key (n ∷ names) = n == key || has_name key names

-- The loop over the allowlist of a binding
unfoldable has_extra : String → List String → Bool
unfolding equal_fold
has_extra name [] = false
has_extra name (extra ∷ more) = equal_fold (trim_space extra) name || has_extra name more

unfoldable pub is_allowed_user_header : String → String → ToolBinding → Bool
unfolding has_name has_extra
is_allowed_user_header name auth_profile_id binding =
    if has_name (to_lower (trim_space name)) allowed_user_header_names
    then true
    else if auth_profile_id == "" || not (ToolBinding.allow_user_headers binding)
    then false
    else has_extra name (ToolBinding.user_header_allowlist binding)

-- The two calls of strings.ReplaceAll with "-" and "_"
unfoldable without_dashes : String → String
without_dashes String.[] = String.[]
without_dashes (String.◌∷◌ c s) =
    let rest = without_dashes s in
    if nat_eq (code c) 45 || nat_eq (code c) 95 then rest else String.◌∷◌ c rest

unfoldable pub normalize_header_key : String → String
unfolding without_dashes
normalize_header_key name = without_dashes (to_lower (trim_space name))

unfoldable pub is_denied_user_header : String → Bool
unfolding normalize_header_key contains
is_denied_user_header name =
    let raw = to_lower (trim_space name) in
    let n = normalize_header_key name in
    raw == ""
    || starts_with raw "proxy-"
    || starts_with raw "x-forwarded-"
    || (n == "authorization"
        || n == "cookie"
        || n == "setcookie"
        || n == "host"
        || n == "proxyauthorization")
    || contains n "apikey"
    || contains n "token"
