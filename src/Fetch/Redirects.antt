-- ===== src/Fetch/Redirects.antt =====
-- The redirects that url_fetch follows (tools/builtin/url_fetch.go), as http.Client asks its
-- CheckRedirect: with the new request, and with the number of the requests already made.
use mister_morph.Fetch.Types.{
  redirect_not_allowed, private_by_guard, other_origin, FetchRequest, Injection, too_many_redirects,
  FetchContext, FetchError, Libraries, access_refused,
}
use mister_morph.Base.{
  trim_space, to_lower, concat, is_blank, ℕ, ◌+◌, String, not, ◌&&◌, Option, none, some, List, [],
  ◌∷◌, ◌==◌, ltb, leb, if◌then◌else◌,
}
use mister_morph.Fetch.Prepare.{is_denied_private_host}
use mister_morph.Guard.Types.{NetworkPolicy}
use mister_morph.Guard.Policy.{url_allowed_by_prefixes}
use mister_morph.Secrets.Types.{Url, Allow, AuthProfile}
use mister_morph.Secrets.Access.{AccessError, is_url_allowed}

-- Whether a redirect is followed, or its response is the last one, or the call fails.
pub data Verdict : Type 0 where
  go : Verdict
  use_last_response : Verdict
  stop : FetchError → Verdict

unfoldable pub canonical_origin : Url → String
canonical_origin u =
    let scheme = to_lower (trim_space (Url.scheme u)) in
    let host = to_lower (trim_space (Url.hostname u)) in
    let port =
      if is_blank (Url.port u) && scheme == "http"
      then "80"
      else if is_blank (Url.port u) && scheme == "https"
      then "443"
      else Url.port u in
    concat (scheme ∷ "://" ∷ host ∷ ":" ∷ port ∷ [])

abbrev pub access_verdict : Option AccessError → Verdict
access_verdict none = go
access_verdict (some e) = stop (access_refused e)

-- A request that a server is sent: the URL and the method, and the header with the secret.
pub record Sent : Type 0 where
  pub url : Url
  pub method : String
  pub secret : Option (String × String)

module _ (lib : Libraries) where
  -- CheckRedirect of a request with a credential
  unfoldable pub check_with_profile : AuthProfile → Url → Url → String → ℕ → Verdict
  check_with_profile profile first target method via =
      if not (Allow.follow_redirects (AuthProfile.allow profile))
      then use_last_response
      else if ltb 3 via
      then stop too_many_redirects
      else if not (canonical_origin target == canonical_origin first)
      then stop other_origin
      else access_verdict
          (is_url_allowed (Libraries.parse_url lib) (Libraries.parse_ip lib) profile target method)

  -- CheckRedirect under the network policy of the guard
  unfoldable pub check_with_policy : NetworkPolicy → Url → Url → ℕ → Verdict
  check_with_policy policy first target via =
      if not (NetworkPolicy.follow_redirects policy)
      then use_last_response
      else if ltb 3 via
      then stop too_many_redirects
      else if not (canonical_origin target == canonical_origin first)
      then stop other_origin
      else if NetworkPolicy.deny_private_ips policy
          && is_denied_private_host lib (Url.hostname target)
      then stop private_by_guard
      else if not (
          url_allowed_by_prefixes (Libraries.url_text lib target)
            (NetworkPolicy.allowed_url_prefixes policy))
      then stop redirect_not_allowed
      else go

  -- The CheckRedirect that the client has; without one, Go stops after ten requests.
  unfoldable pub check_redirect :
      Option Injection → Option NetworkPolicy → Url → Url → String → ℕ → Verdict
  check_redirect (some i) policy first target method via =
      check_with_profile (Injection.profile i) first target method via
  check_redirect none (some policy) first target method via =
      check_with_policy policy first target via
  check_redirect none none first target method via =
      if leb 10 via then stop too_many_redirects else go

  abbrev pub secret_of : Option Injection → Option (String × String)
  secret_of none = none
  secret_of (some i) = some (Injection.name i, Injection.value i)

  abbrev pub sent_if : Verdict → Sent → List Sent → List Sent
  sent_if go s rest = s ∷ rest
  sent_if use_last_response s rest = []
  sent_if (stop e) s rest = []

  -- The requests that follow redirects: the URLs and methods that the responses lead to, in order
  unfoldable pub follow_redirects :
      FetchContext → FetchRequest → ℕ → List (Url × String) → List Sent
  follow_redirects ctx r via [] = []
  follow_redirects ctx r via ((target, method) ∷ targets) =
      let rest = follow_redirects ctx r (via + 1) targets in
      sent_if
        (check_redirect (FetchRequest.injection r) (FetchContext.network_policy ctx)
          (FetchRequest.url r) target method via)
        (record { url = target; method = method; secret = secret_of (FetchRequest.injection r) })
        rest

  -- client.Do: the request, and those that follow it
  unfoldable pub send_all : FetchContext → FetchRequest → List (Url × String) → List Sent
  unfolding follow_redirects
  send_all ctx r targets =
      record {
        url = FetchRequest.url r;
        method = FetchRequest.method r;
        secret = secret_of (FetchRequest.injection r);
      }
      ∷ follow_redirects ctx r 1 targets
