-- ===== src/Secrets/Types.antt =====
-- The data of secrets/types.go, and what net/url and net tell of a URL and of an address.
use mister_morph.Base.{ℕ, String, Bool, Option, List}

-- What the code reads of a url.URL: u.Scheme, u.User != nil, u.Hostname(), u.Port(), u.Path,
-- u.RawQuery and u.Fragment. u.Port() is empty or has decimal digits only.
pub record Url : Type 0 where
  pub scheme : String
  pub has_user : Bool
  pub hostname : String
  pub port : String
  pub path : String
  pub raw_query : String
  pub fragment : String

-- What the tests of net.IP say of an address.
pub record Ip : Type 0 where
  pub is_loopback : Bool
  pub is_unspecified : Bool
  pub is_link_local_unicast : Bool
  pub is_link_local_multicast : Bool
  pub is_private : Bool

pub record Credential : Type 0 where
  pub kind : String
  pub secret_ref : String

pub record UrlPrefixRule : Type 0 where
  pub scheme : String
  pub host : String
  pub port : ℕ
  pub path_prefix : String

pub record Allow : Type 0 where
  pub url_prefixes : List String
  pub methods : List String
  pub follow_redirects : Bool
  pub allow_proxy : Bool
  pub deny_private_ips : Option Bool
  pub parsed_url_prefixes : List UrlPrefixRule

pub record Inject : Type 0 where
  pub location : String
  pub name : String
  pub format : String

pub record ToolBinding : Type 0 where
  pub inject : Inject
  pub allow_user_headers : Bool
  pub user_header_allowlist : List String

pub record AuthProfile : Type 0 where
  pub id : String
  pub credential : Credential
  pub allow : Allow
  pub bindings : List (String × ToolBinding)
