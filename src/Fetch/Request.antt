-- ===== src/Fetch/Request.antt =====
-- The headers of the request, and URLFetchTool.Execute of tools/builtin/url_fetch.go up to the call of
-- http.Client.Do.
use mister_morph.Secrets.Store.{has_text}
use mister_morph.Fetch.Prepare.{request_body, check_network, required, text_or_empty, authorize}
use mister_morph.Fetch.Types.{
  body_not_supported, unsupported_url_scheme, invalid_fetch_url, missing_url, tool_disabled,
  FetchRequest, header_reserved, header_not_listed, method_not_text, FetchContext,
  headers_not_object, header_not_text, header_denied, unsupported_fetch_method, FetchTool,
  headers_not_allowed, Libraries, Injection, FetchError,
}
use mister_morph.Base.{
  trim_space, to_lower, to_upper, is_blank, String, Bool, true, false, not, ◌&&◌, ◌||◌, Option,
  none, some, List, [], ◌==◌, if◌then◌else◌,
}
use mister_morph.Base.Result.{Except, ok, err, ◌>>=◌, ◌>>◌, fail_if}
use mister_morph.Base.Json.{Params, Value, Members, lookup, get_string}
use mister_morph.Base.Assoc.{put}
use mister_morph.Fetch.Headers.{equal_fold, is_allowed_user_header, is_denied_user_header}
use mister_morph.Secrets.Types.{Url, ToolBinding}

abbrev pub is_nothing {ℓ} : {A : Type ℓ} → Option A → Bool
is_nothing none = true
is_nothing (some a) = false

-- The headers set so far, and whether the caller has set User-Agent and Content-Type.
pub record HeaderState : Type 0 where
  pub headers : List (String × String)
  pub has_user_agent : Bool
  pub has_content_type : Bool

abbrev pub no_headers : HeaderState
no_headers = record { headers = []; has_user_agent = false; has_content_type = false }

abbrev pub no_binding_set : ToolBinding
no_binding_set = record {
  inject = record { location = ""; name = ""; format = "" };
  allow_user_headers = false;
  user_header_allowlist = [];
}

abbrev pub binding_of : Option (Injection × ToolBinding) → ToolBinding
binding_of none = no_binding_set
binding_of (some (i, b)) = b

-- The name of the header that carries the secret, or no text
abbrev pub inject_name : Option (Injection × ToolBinding) → String
inject_name none = ""
inject_name (some (i, b)) = Injection.name i

abbrev pub header_text : String → Value → Except FetchError String
header_text key (Value.str s) = ok (trim_space s)
header_text key _ = err (header_not_text key)

abbrev pub has_members : Members → Bool
has_members Members.no_members = false
has_members (Members.member ms k v) = true

module _ (lib : Libraries) where
  abbrev pub set_header : String → String → HeaderState → HeaderState
  set_header key value st = record {
    headers = put (Libraries.canonical_key lib key) value (HeaderState.headers st);
    has_user_agent = HeaderState.has_user_agent st || equal_fold key "user-agent";
    has_content_type = HeaderState.has_content_type st || equal_fold key "content-type";
  }

  -- One header of the caller
  unfoldable pub add_header :
      String
      → Option (Injection × ToolBinding)
      → String
      → Value
      → HeaderState
      → Except FetchError HeaderState
  add_header id cred name v st =
      let key = trim_space name in
      if key == "" then ok st else do
        value ← header_text key v
        fail_if (is_denied_user_header key) (header_denied key)
        fail_if (not (is_allowed_user_header key id (binding_of cred))) (header_not_listed key)
        fail_if
            (not (equal_fold key "content-length")
              && not (id == "")
              && equal_fold key (inject_name cred))
            header_reserved
        ok (if equal_fold key "content-length" then st else set_header key value st)

  -- The loop over the headers of the caller
  unfoldable pub add_headers :
      String → Option (Injection × ToolBinding) → Members → Except FetchError HeaderState
  unfolding add_header
  add_headers id cred Members.no_members = ok no_headers
  add_headers id cred (Members.member ms k v) = add_headers id cred ms >>= add_header id cred k v

  unfoldable pub user_headers :
      String → Option (Injection × ToolBinding) → Option Value → Except FetchError HeaderState
  unfolding add_headers
  user_headers id cred none = ok no_headers
  user_headers id cred (some Value.null) = ok no_headers
  user_headers id cred (some (Value.object ms)) = do
    fail_if
        (not (id == "") && not (ToolBinding.allow_user_headers (binding_of cred)) && has_members ms)
        headers_not_allowed
    add_headers id cred ms
  user_headers id cred (some _) = err headers_not_object

  abbrev put_if : Bool → String → String → List (String × String) → List (String × String)
  put_if b key value headers =
      if b then put (Libraries.canonical_key lib key) value headers else headers

  abbrev put_secret :
      Option (Injection × ToolBinding) → List (String × String) → List (String × String)
  put_secret none headers = headers
  put_secret (some (i, b)) headers =
      put (Libraries.canonical_key lib (Injection.name i)) (Injection.value i) headers

  -- The headers of the request
  unfoldable pub all_headers :
      FetchTool → Bool → Option (Injection × ToolBinding) → HeaderState → List (String × String)
  all_headers tool is_json cred st = put_secret cred (
      put_if (is_json && not (HeaderState.has_content_type st)) "Content-Type" "application/json" (
        put_if (not (HeaderState.has_user_agent st) && not (is_blank (FetchTool.user_agent tool)))
          "User-Agent" (FetchTool.user_agent tool) (HeaderState.headers st)))

  -- The method, GET by default
  unfoldable pub request_method : Option Value → Except FetchError String
  request_method none = ok "GET"
  request_method (some (Value.str text)) = supported (to_upper (trim_space text))
    where
      supported : String → Except FetchError String
      supported s =
          if s == ""
          then ok "GET"
          else if s == "GET" || s == "POST" || s == "PUT" || s == "PATCH" || s == "DELETE"
          then ok s
          else err (unsupported_fetch_method s)
  request_method (some _) = err method_not_text

  -- The credential, when the call names a profile
  unfoldable pub credential :
      FetchTool
      → FetchContext
      → Url
      → String
      → String
      → Except FetchError (Option (Injection × ToolBinding))
  credential tool ctx u method id =
      if id == "" then ok none else do cred ← authorize lib tool ctx u method id; ok (some cred)

  abbrev pub injection_of : Option (Injection × ToolBinding) → Option Injection
  injection_of none = none
  injection_of (some (i, b)) = some i

  -- Execute, up to the call of client.Do
  unfoldable pub prepare : FetchTool → FetchContext → Params → Except FetchError FetchRequest
  unfolding user_headers all_headers request_method credential
  prepare tool ctx params = do
    fail_if (not (FetchTool.enabled tool)) tool_disabled
    let raw_url = trim_space (text_or_empty (get_string "url" params))
    fail_if (raw_url == "") missing_url
    u ← required (Libraries.parse_url lib raw_url) invalid_fetch_url
    fail_if (not (has_text (to_lower (Url.scheme u)) (FetchTool.allow_scheme tool)))
        unsupported_url_scheme
    let id = trim_space (text_or_empty (get_string "auth_profile" params))
    check_network lib (FetchContext.network_policy ctx) u
    method ← request_method (lookup "method" params)
    (body, is_json) ← request_body lib (lookup "body" params) id
    fail_if
        (not (is_nothing (lookup "body" params))
          && not (method == "POST" || method == "PUT" || method == "PATCH"))
        body_not_supported
    cred ← credential tool ctx u method id
    st ← user_headers id cred (lookup "headers" params)
    ok (record {
      url = u;
      method = method;
      headers = all_headers tool is_json cred st;
      body = body;
      injection = injection_of cred;
    })
