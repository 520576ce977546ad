-- ===== src/Fetch/Steps.antt =====
-- The steps of a successful call of url_fetch, up to its request.
use mister_morph.Secrets.Store.{has_text}
use mister_morph.Fetch.Prepare.{request_body, required, check_network, text_or_empty}
use mister_morph.Fetch.Request.{
  user_headers, is_nothing, request_method, injection_of, credential, prepare,
}
use mister_morph.Fetch.Types.{
  body_not_supported, unsupported_url_scheme, invalid_fetch_url, missing_url, tool_disabled,
  Injection, FetchRequest, FetchContext, FetchTool, Libraries,
}
use mister_morph.Base.{trim_space, to_lower, String, ◌≡◌, refl, not, ◌&&◌, ◌||◌, Option, ◌==◌}
use mister_morph.Base.Result.{ok, bind-eq-ok, fail_if-eq-ok, ok_injective}
use mister_morph.Base.Json.{Params, get_string, lookup}
use mister_morph.Secrets.Types.{Url, ToolBinding}
use mathlib.Core.Path.{subst}

module _ (lib : Libraries) where
  abbrev pub profile_id : Params → String
  profile_id params = trim_space (text_or_empty (get_string "auth_profile" params))

  pub prepare-Steps :
      (tool : FetchTool) (ctx : FetchContext) (params : Params) (r : FetchRequest)
      → prepare lib tool ctx params ≡ ok r
      → (cred : Option (Injection × ToolBinding)) × (check_network lib
            (FetchContext.network_policy ctx)
            (FetchRequest.url r)
          ≡ ok tt)
        × (credential lib tool ctx (FetchRequest.url r) (FetchRequest.method r) (profile_id params)
            ≡ ok cred)
        × (FetchRequest.injection r ≡ injection_of lib cred)
  unfolding prepare
  prepare-Steps tool ctx params r h =
      let raw_url = trim_space (text_or_empty (get_string "url" params)) in
      let (_, h1) = fail_if-eq-ok (not (FetchTool.enabled tool)) tool_disabled _ r h in
      let (_, h2) = fail_if-eq-ok (raw_url == "") missing_url _ r h1 in
      let (u, _, h3) =
        bind-eq-ok (required (Libraries.parse_url lib raw_url) invalid_fetch_url) _ r h2 in
      let (_, h4) =
        fail_if-eq-ok (not (has_text (to_lower (Url.scheme u)) (FetchTool.allow_scheme tool)))
          unsupported_url_scheme _ r h3 in
      let (tt, network, h5) =
        bind-eq-ok (check_network lib (FetchContext.network_policy ctx) u) _ r h4 in
      let (method, _, h6) = bind-eq-ok (request_method lib (lookup "method" params)) _ r h5 in
      let (body, _, h7) =
        bind-eq-ok (request_body lib (lookup "body" params) (profile_id params)) _ r h6 in
      let (_, h8) =
        fail_if-eq-ok
          (not (is_nothing (lookup "body" params))
            && not (method == "POST" || method == "PUT" || method == "PATCH"))
          body_not_supported _ r h7 in
      let (cred, granted, h9) =
        bind-eq-ok (credential lib tool ctx u method (profile_id params)) _ r h8 in
      let (st, _, h10) =
        bind-eq-ok (user_headers lib (profile_id params) cred (lookup "headers" params)) _ r h9 in
      subst
        (λ q.
          (c : Option (Injection × ToolBinding)) × (check_network lib
              (FetchContext.network_policy ctx) (FetchRequest.url q)
            ≡ ok tt)
          × (credential lib tool ctx (FetchRequest.url q) (FetchRequest.method q)
                (profile_id params)
              ≡ ok c)
          × (FetchRequest.injection q ≡ injection_of lib c))
        (ok_injective h10) (cred, network, granted, refl)
