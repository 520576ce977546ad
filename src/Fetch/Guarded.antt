-- ===== src/Fetch/Guarded.antt =====
-- The network policy of the guard and the requests of url_fetch.
use mister_morph.Fetch.Types.{
  no_guard_prefixes, not_allowed_by_guard, private_by_guard, too_many_redirects, other_origin,
  redirect_not_allowed, FetchRequest, FetchContext, FetchTool, Libraries,
}
use mister_morph.Base.{
  ◌∙◌, sym, ap, if◌then◌else◌, not, ℕ, ◌+◌, String, ◌≡◌, Bool, none, some, List, [], ◌∷◌, arith,
  All,
}
use mister_morph.Base.Result.{◌>>◌, fail_if, ok}
use mister_morph.Base.Json.{Params}
use mister_morph.Fetch.Prepare.{check_network, has_no_prefixes}
use mister_morph.Fetch.Request.{prepare}
use mister_morph.Fetch.Redirects.{
  Sent, Verdict, go, use_last_response, stop, follow_redirects, check_redirect, sent_if, send_all,
  check_with_policy, secret_of,
}
use mister_morph.Fetch.Steps.{prepare-Steps}
use mister_morph.Guard.Types.{NetworkPolicy}
use mathlib.Core.Path.{subst}
use mister_morph.Secrets.Types.{Url}

module _ (lib : Libraries) where
  -- The policy lets a URL through.
  unfoldable pub Passes : NetworkPolicy → Url → Type 0
  Passes policy u = check_network lib (some policy) u ≡ ok tt

  check_with_policy-Passes :
      (policy : NetworkPolicy) (first target : Url) (via : ℕ)
      → Passes policy first
      → check_with_policy lib policy first target via ≡ go
      → Passes policy target
  unfolding check_with_policy Passes check_network
  check_with_policy-Passes policy first target via h e =
      by_tests (has_no_prefixes lib policy) _ _ _ _ _ _ _ h e
    where
      by_tests :
          (a b c d f g u v : Bool)
          → (fail_if a no_guard_prefixes
              >> (fail_if (not b) not_allowed_by_guard >> fail_if c private_by_guard))
            ≡ ok tt
          → (if not f
              then use_last_response
              else if g
              then stop too_many_redirects
              else if not u
              then stop other_origin
              else if v
              then stop private_by_guard
              else if not d
              then stop redirect_not_allowed
              else go)
            ≡ go
          → (fail_if a no_guard_prefixes
              >> (fail_if (not d) not_allowed_by_guard >> fail_if v private_by_guard))
            ≡ ok tt
      by_tests a b c d f g u v h e = ground (arith, h, e)

  follow_redirects-Passes :
      (ctx : FetchContext) (r : FetchRequest) (policy : NetworkPolicy) (via : ℕ)
      (targets : List (Url × String))
      → FetchContext.network_policy ctx ≡ some policy
      → FetchRequest.injection r ≡ none
      → Passes policy (FetchRequest.url r)
      → All (λ s. Passes policy (Sent.url s)) (follow_redirects lib ctx r via targets)
  unfolding follow_redirects check_redirect
  follow_redirects-Passes ctx r policy via [] p e h = tt
  follow_redirects-Passes ctx r policy via ((target, method) ∷ targets) p e h =
      by_verdict _ checked (follow_redirects-Passes ctx r policy (via + 1) targets p e h)
    where
      checked :
          check_redirect lib
            (FetchRequest.injection r)
            (FetchContext.network_policy ctx)
            (FetchRequest.url r)
            target
            method
            via
          ≡ check_with_policy lib policy (FetchRequest.url r) target via
      checked =
          ap
            (λ j.
              check_redirect lib j (FetchContext.network_policy ctx) (FetchRequest.url r) target
                method via)
            e
          ∙ ap (λ j. check_redirect lib none j (FetchRequest.url r) target method via) p

      by_verdict :
          (x : Verdict)
          → x ≡ check_with_policy lib policy (FetchRequest.url r) target via
          → All (λ s. Passes policy (Sent.url s)) (follow_redirects lib ctx r (via + 1) targets)
          → All
              (λ s. Passes policy (Sent.url s))
              (sent_if lib x
                (record {
                  url = target;
                  method = method;
                  secret = secret_of lib (FetchRequest.injection r);
                })
                (follow_redirects lib ctx r (via + 1) targets))
      by_verdict use_last_response q k = tt
      by_verdict (stop x) q k = tt
      by_verdict go q k =
          (check_with_policy-Passes policy (FetchRequest.url r) target via h (sym q), k)

  -- Under a network policy of the guard, and without a credential, every request, also one that
  -- follows a redirect, goes to a URL that the policy lets through.
  pub send_all-Passes :
      (tool : FetchTool) (ctx : FetchContext) (params : Params) (r : FetchRequest)
      (policy : NetworkPolicy) (targets : List (Url × String))
      → prepare lib tool ctx params ≡ ok r
      → FetchContext.network_policy ctx ≡ some policy
      → FetchRequest.injection r ≡ none
      → All (λ s. Passes policy (Sent.url s)) (send_all lib ctx r targets)
  unfolding send_all
  send_all-Passes tool ctx params r policy targets h p e =
      let (cred, network, _, _) = prepare-Steps lib tool ctx params r h in
      let first : Passes policy (FetchRequest.url r) =
        unfold Passes in subst (λ q. check_network lib q (FetchRequest.url r) ≡ ok tt) p network in
      (first, follow_redirects-Passes ctx r policy 1 targets p e first)
