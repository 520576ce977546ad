-- ===== src/Fetch/Safety.antt =====
-- Where the requests of url_fetch go.
use mister_morph.Fetch.Granted.{authorize-IsGranted, IsGranted}
use mister_morph.Secrets.Access.{AccessError, is_url_allowed}
use mister_morph.Fetch.Redirects.{
  use_last_response, stop, Verdict, follow_redirects, check_redirect, access_verdict, sent_if,
  secret_of, canonical_origin, go, Sent, send_all, check_with_profile,
}
use mister_morph.Fetch.Prepare.{authorize}
use mister_morph.Fetch.Request.{injection_of, credential, prepare}
use mister_morph.Fetch.Types.{
  other_origin, too_many_redirects, Injection, FetchRequest, FetchContext, FetchTool, Libraries,
}
use mister_morph.Base.{
  ◌∙◌, eq_iff, true, if◌then◌else◌, arith, Bool, false, ltb, ◌∷◌, [], ◌+◌, length, All, ◌≤◌, none,
  some, ℕ, List, String, ◌≡◌, refl, not, Option,
}
use mister_morph.Base.Result.{◌>>=◌, ok, bind-eq-ok, ok_injective}
use mister_morph.Base.Json.{Params}
use mister_morph.Secrets.Types.{Url, ToolBinding}
use mathlib.Core.Path.{ap, sym, subst}
use mister_morph.Fetch.Steps.{prepare-Steps, profile_id}

some_injective : {A : Type 0} {a b : A} → ◌≡◌ {A = Option A} (some a) (some b) → a ≡ b
some_injective h = ground (arith, h)

module _ (lib : Libraries) where
  -- The request of a server that a credential may go to: its URL is allowed by the profile, and has
  -- the origin of the first URL.
  unfoldable pub IsConfined : Injection → Url → Sent → Type 0
  IsConfined i first s =
      (is_url_allowed (Libraries.parse_url lib) (Libraries.parse_ip lib) (Injection.profile i)
          (Sent.url s) (Sent.method s)
        ≡ none)
      × (canonical_origin (Sent.url s) ≡ canonical_origin first)

  check_with_profile-go :
      (i : Injection) (first target : Url) (method : String) (via : ℕ)
      → check_with_profile lib (Injection.profile i) first target method via ≡ go
      → (ltb 3 via ≡ false)
        × (is_url_allowed
              (Libraries.parse_url lib)
              (Libraries.parse_ip lib)
              (Injection.profile i)
              target
              method
            ≡ none)
        × (canonical_origin target ≡ canonical_origin first)
  unfolding check_with_profile
  check_with_profile-go i first target method via h =
      by_tests _ _ _ _ h ((eq_iff (canonical_origin target) (canonical_origin first)).0)
    where
      by_tests :
          {P : Type 0} (a b : Bool) (c : Bool) (o : Option AccessError)
          → (if a
              then use_last_response
              else if b
              then stop too_many_redirects
              else if not c
              then stop other_origin
              else access_verdict o)
            ≡ go
          → (c ≡ true → P)
          → (b ≡ false) × (o ≡ none) × P
      by_tests false false true none h k = (refl, refl, k refl)
      by_tests true b c o h k = ground (arith, h)
      by_tests false true c o h k = ground (arith, h)
      by_tests false false false o h k = ground (arith, h)
      by_tests false false true (some x) h k = ground (arith, h)

  follow_redirects-IsConfined :
      (ctx : FetchContext) (r : FetchRequest) (i : Injection) (via : ℕ)
      (targets : List (Url × String))
      → FetchRequest.injection r ≡ some i
      → via ≤ 4
      → All (IsConfined i (FetchRequest.url r)) (follow_redirects lib ctx r via targets)
        × (length (follow_redirects lib ctx r via targets) + via ≤ 4)
  unfolding follow_redirects check_redirect IsConfined
  follow_redirects-IsConfined ctx r i via [] e v = (tt, omega (arith, v))
  follow_redirects-IsConfined ctx r i via ((target, method) ∷ targets) e v =
      by_verdict _ refl (follow_redirects-IsConfined ctx r i (via + 1) targets e)
    where
      checked :
          (target : Url) (method : String)
          → check_redirect lib
              (FetchRequest.injection r)
              (FetchContext.network_policy ctx)
              (FetchRequest.url r)
              target
              method
              via
            ≡ check_with_profile lib (Injection.profile i) (FetchRequest.url r) target method via
      checked target method =
          ap
            (λ j.
              check_redirect lib j (FetchContext.network_policy ctx) (FetchRequest.url r) target
                method via)
            e

      by_verdict :
          (x : Verdict)
          → check_redirect lib
              (FetchRequest.injection r)
              (FetchContext.network_policy ctx)
              (FetchRequest.url r)
              target
              method
              via
            ≡ x
          → (via + 1 ≤ 4
              → All
                  (IsConfined i (FetchRequest.url r))
                  (follow_redirects lib ctx r (via + 1) targets)
                × (length (follow_redirects lib ctx r (via + 1) targets) + (via + 1) ≤ 4))
          → All (IsConfined i (FetchRequest.url r)) (
              sent_if lib x
                (record {
                  url = target;
                  method = method;
                  secret = secret_of lib (FetchRequest.injection r);
                })
                (follow_redirects lib ctx r (via + 1) targets))
            × (length (
                    sent_if lib x
                      (record {
                        url = target;
                        method = method;
                        secret = secret_of lib (FetchRequest.injection r);
                      })
                      (follow_redirects lib ctx r (via + 1) targets))
                  + via
                ≤ 4)
      by_verdict use_last_response q k = (tt, omega (arith, v))
      by_verdict (stop x) q k = (tt, omega (arith, v))
      by_verdict go q k =
          let (few, allowed, origin) =
            check_with_profile-go i (FetchRequest.url r) target method via
              (sym (checked target method) ∙ q) in
          let (rest, count) = k (ground (arith, few)) in
          (((allowed, origin), rest), ground (arith, count))

  credential-IsGranted :
      (tool : FetchTool) (ctx : FetchContext) (u : Url) (method id : String)
      (cred : Option (Injection × ToolBinding)) (i : Injection)
      → credential lib tool ctx u method id ≡ ok cred
      → injection_of lib cred ≡ some i
      → IsGranted lib tool ctx id (Injection.profile i)
        × (is_url_allowed
              (Libraries.parse_url lib)
              (Libraries.parse_ip lib)
              (Injection.profile i)
              u
              method
            ≡ none)
  unfolding credential
  credential-IsGranted tool ctx u method id cred i h e = by_id _ h
    where
      by_cred :
          (j : Injection) (b : ToolBinding)
          → authorize lib tool ctx u method id ≡ ok (j, b)
          → some (j, b) ≡ cred
          → IsGranted lib tool ctx id (Injection.profile i)
            × (is_url_allowed
                  (Libraries.parse_url lib)
                  (Libraries.parse_ip lib)
                  (Injection.profile i)
                  u
                  method
                ≡ none)
      by_cred j b a same =
          subst
            (λ x.
              IsGranted lib tool ctx id (Injection.profile x)
              × (is_url_allowed (Libraries.parse_url lib) (Libraries.parse_ip lib)
                    (Injection.profile x) u method
                  ≡ none))
            (some_injective (ap (injection_of lib) same ∙ e))
            (authorize-IsGranted lib tool ctx u method id j b a)

      by_id :
          (t : Bool)
          → (if t then ok none else do c ← authorize lib tool ctx u method id; ok (some c))
            ≡ ok cred
          → IsGranted lib tool ctx id (Injection.profile i)
            × (is_url_allowed
                  (Libraries.parse_url lib)
                  (Libraries.parse_ip lib)
                  (Injection.profile i)
                  u
                  method
                ≡ none)
      by_id true q = ground (arith, ap (injection_of lib) (ok_injective q) ∙ e)
      by_id false q =
          let ((j, b), a, k) = bind-eq-ok (authorize lib tool ctx u method id) _ cred q in
          by_cred j b a (ok_injective k)

  -- When a call of url_fetch sends a credential, the skills and the tool allow the profile that the
  -- call names, the store has it, it is valid, and every request, also one that follows a redirect,
  -- goes to a URL that the profile allows and to the origin of the first; there are at most four.
  pub send_all-IsConfined :
      (tool : FetchTool) (ctx : FetchContext) (params : Params) (r : FetchRequest) (i : Injection)
      (targets : List (Url × String))
      → prepare lib tool ctx params ≡ ok r
      → FetchRequest.injection r ≡ some i
      → IsGranted lib tool ctx (profile_id lib params) (Injection.profile i)
        × All (IsConfined i (FetchRequest.url r)) (send_all lib ctx r targets)
        × (length (send_all lib ctx r targets) ≤ 4)
  unfolding send_all IsConfined
  send_all-IsConfined tool ctx params r i targets h e =
      let (cred, _, granted, same) = prepare-Steps lib tool ctx params r h in
      let (profile, allowed) =
        credential-IsGranted tool ctx (FetchRequest.url r) (FetchRequest.method r)
          (profile_id lib params) cred i granted (sym same ∙ e) in
      let (rest, count) = follow_redirects-IsConfined ctx r i 1 targets e (omega arith) in
      (profile, ((allowed, refl), rest), omega (arith, count))
