-- ===== src/Fetch/Types.antt =====
-- The data of tools/builtin/url_fetch.go. What the libraries give comes as a record of functions.
use mister_morph.Base.{String, Bool, Option, List}
use mister_morph.Base.Result.{Except}
use mister_morph.Base.Json.{Value}
use mister_morph.Secrets.Types.{Url, Ip, AuthProfile}
use mister_morph.Secrets.Access.{AccessError}
use mister_morph.Secrets.Profile.{ProfileError, BindingError}
use mister_morph.Secrets.Store.{SecretError, SkillAuthProfilePolicy}
use mister_morph.Guard.Types.{NetworkPolicy}

pub record Libraries : Type 0 where
  -- url.Parse
  pub parse_url : String → Option Url
  -- URL.String
  pub url_text : Url → String
  -- net.ParseIP
  pub parse_ip : String → Option Ip
  -- textproto.CanonicalMIMEHeaderKey
  pub canonical_key : String → String
  -- base64.StdEncoding.EncodeToString
  pub encode_base64 : String → String
  -- json.Marshal
  pub marshal : Value → Option String
  -- filepath.IsAbs, and os.Stat finds the file
  pub is_absolute : String → Bool
  pub file_exists : String → Bool

-- map[string]bool has true under the ids of `allow_profiles`.
pub record FetchAuth : Type 0 where
  pub enabled : Bool
  pub allow_profiles : List String
  pub profiles : Option (List (String × AuthProfile))
  pub resolver : Option (String → Except SecretError String)

-- The tool, with the keys of AllowScheme
pub record FetchTool : Type 0 where
  pub enabled : Bool
  pub user_agent : String
  pub allow_scheme : List String
  pub auth : Option FetchAuth

-- What the context of a call carries.
pub record FetchContext : Type 0 where
  pub network_policy : Option NetworkPolicy
  pub skill_policy : Option SkillAuthProfilePolicy

pub data FetchError : Type 0 where
  tool_disabled : FetchError
  missing_url : FetchError
  invalid_fetch_url : FetchError
  unsupported_url_scheme : FetchError
  no_guard_prefixes : FetchError
  not_allowed_by_guard : FetchError
  private_by_guard : FetchError
  method_not_text : FetchError
  unsupported_fetch_method : String → FetchError
  local_file_path : String → FetchError
  invalid_body : FetchError
  body_not_supported : FetchError
  undeclared_profile : FetchError
  auth_not_enabled : FetchError
  profile_not_allowed : FetchError
  no_profile_store : FetchError
  profile_not_found : FetchError
  invalid_profile : ProfileError → FetchError
  access_refused : AccessError → FetchError
  no_binding : FetchError
  invalid_binding : BindingError → FetchError
  no_resolver : FetchError
  secret_refused : SecretError → FetchError
  secret_empty : FetchError
  inject_format : FetchError
  headers_not_object : FetchError
  headers_not_allowed : FetchError
  header_not_text : String → FetchError
  header_denied : String → FetchError
  header_not_listed : String → FetchError
  header_reserved : FetchError
  too_many_redirects : FetchError
  other_origin : FetchError
  redirect_not_allowed : FetchError

-- The credential of a request: the profile, and the header that carries the secret.
pub record Injection : Type 0 where
  pub profile : AuthProfile
  pub name : String
  pub value : String

-- The request that is made.
pub record FetchRequest : Type 0 where
  pub url : Url
  pub method : String
  pub headers : List (String × String)
  pub body : Option String
  pub injection : Option Injection
