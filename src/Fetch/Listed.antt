-- ===== src/Fetch/Listed.antt =====
-- The headers that a caller of url_fetch gets into the request.
use mister_morph.Fetch.Request.{
  set_header, header_text, has_members, no_headers, HeaderState, inject_name, binding_of,
  add_headers, add_header, user_headers,
}
use mister_morph.Base.{
  trim_space, if◌then◌else◌, not, ◌&&◌, refl, String, ◌≡◌, Bool, true, false, Option, none, some,
  List, [], ◌∷◌, arith, ◌==◌, All,
}
use mathlib.Core.Path.{subst}
use mister_morph.Base.Result.{
  fail_if, ◌>>=◌, ◌>>◌, fail_if-eq-ok, Except, ok, bind-eq-ok, ok_injective,
}
use mister_morph.Base.Json.{Value, Members}
use mister_morph.Base.Assoc.{put}
use mister_morph.Fetch.Types.{
  header_denied, header_not_listed, header_reserved, headers_not_allowed, FetchError, Libraries,
  Injection,
}
use mister_morph.Fetch.Headers.{equal_fold, is_allowed_user_header, is_denied_user_header}
use mister_morph.Secrets.Types.{ToolBinding}

-- What holds of the value that is put holds of every value of the map.
put-All :
    (Q : String → Type 0) (k v : String) (m : List (String × String))
    → Q k
    → All (λ h. Q h.0) m
    → All (λ h. Q h.0) (put k v m)
unfolding put
put-All Q k v [] q h = (q, tt)
put-All Q k v ((j, u) ∷ m) q h = by_key (j == k) (put-All Q k v m q h.1)
  where
    by_key :
        (b : Bool)
        → All (λ h. Q h.0) (put k v m)
        → All (λ h. Q h.0) (if b then (j, v) ∷ m else (j, u) ∷ put k v m)
    by_key true r = h
    by_key false r = (h.0, r)

module _ (lib : Libraries) where
  -- The name stands for one that the caller may set.
  unfoldable pub IsListed : String → Option (Injection × ToolBinding) → String → Type 0
  IsListed id cred name =
      (key : String) × (name ≡ Libraries.canonical_key lib key)
      × (is_denied_user_header key ≡ false)
      × (is_allowed_user_header key id (binding_of cred) ≡ true)
      × ((not (id == "") && equal_fold key (inject_name cred)) ≡ false)

  add_header-IsListed :
      (id : String) (cred : Option (Injection × ToolBinding)) (name : String) (v : Value)
      (st next : HeaderState)
      → add_header lib id cred name v st ≡ ok next
      → All (λ h. IsListed id cred h.0) (HeaderState.headers st)
      → All (λ h. IsListed id cred h.0) (HeaderState.headers next)
  unfolding add_header
  add_header-IsListed id cred name v st next h q = by_blank (trim_space name == "") h
    where
      key : String
      key = trim_space name

      listed :
          (not (id == "") && equal_fold key (inject_name cred)) ≡ false
          → is_denied_user_header key ≡ false
          → is_allowed_user_header key id (binding_of cred) ≡ true
          → IsListed id cred (Libraries.canonical_key lib key)
      listed r d l = unfold IsListed in (key, refl, d, l, r)

      by_length :
          (value : String) (c : Bool)
          → (not c && not (id == "") && equal_fold key (inject_name cred)) ≡ false
          → is_denied_user_header key ≡ false
          → is_allowed_user_header key id (binding_of cred) ≡ true
          → All
              (λ x. IsListed id cred x.0)
              (HeaderState.headers (if c then st else set_header lib key value st))
      by_length value true r d l = q
      by_length value false r d l =
          put-All (IsListed id cred) (Libraries.canonical_key lib key) value
            (HeaderState.headers st) (listed r d l) q

      by_blank :
          (b : Bool)
          → (if b then ok st else do
            value ← header_text key v
            fail_if (is_denied_user_header key) (header_denied key)
            fail_if (not (is_allowed_user_header key id (binding_of cred))) (header_not_listed key)
            fail_if
                (not (equal_fold key "content-length")
                  && not (id == "")
                  && equal_fold key (inject_name cred))
                header_reserved
            ok (if equal_fold key "content-length" then st else set_header lib key value st))
            ≡ ok next
          → All (λ x. IsListed id cred x.0) (HeaderState.headers next)
      by_blank true e =
          subst (λ s. All (λ x. IsListed id cred x.0) (HeaderState.headers s)) (ok_injective e) q
      by_blank false e =
          let (value, _, e1) = bind-eq-ok (header_text key v) _ next e in
          let (d, e2) = fail_if-eq-ok (is_denied_user_header key) (header_denied key) _ next e1 in
          let (l, e3) =
            fail_if-eq-ok (not (is_allowed_user_header key id (binding_of cred)))
              (header_not_listed key) _ next e2 in
          let (r, e4) =
            fail_if-eq-ok
              (not (equal_fold key "content-length")
                && not (id == "")
                && equal_fold key (inject_name cred))
              header_reserved _ next e3 in
          subst (λ s. All (λ x. IsListed id cred x.0) (HeaderState.headers s)) (ok_injective e4)
            (by_length value (equal_fold key "content-length") r d (ground (arith, l)))

  nothing :
      (id : String) (cred : Option (Injection × ToolBinding)) (st : HeaderState)
      → ◌≡◌ {A = Except FetchError HeaderState} (ok no_headers) (ok st)
      → All (λ h. IsListed id cred h.0) (HeaderState.headers st)
  nothing id cred st h =
      subst (λ s. All (λ x. IsListed id cred x.0) (HeaderState.headers s)) (ok_injective h) tt

  add_headers-IsListed :
      (id : String) (cred : Option (Injection × ToolBinding)) (ms : Members) (st : HeaderState)
      → add_headers lib id cred ms ≡ ok st
      → All (λ h. IsListed id cred h.0) (HeaderState.headers st)
  unfolding add_headers
  add_headers-IsListed id cred Members.no_members st h = nothing id cred st h
  add_headers-IsListed id cred (Members.member ms k v) st h =
      let (first, h1, h2) = bind-eq-ok (add_headers lib id cred ms) _ st h in
      add_header-IsListed id cred k v first st h2 (add_headers-IsListed id cred ms first h1)

  -- Every header that a call of url_fetch takes from the caller is on the list of allowed ones, is not
  -- denied, and with a profile is not the header of the secret.
  pub user_headers-IsListed :
      (id : String) (cred : Option (Injection × ToolBinding)) (o : Option Value) (st : HeaderState)
      → user_headers lib id cred o ≡ ok st
      → All (λ h. IsListed id cred h.0) (HeaderState.headers st)
  unfolding user_headers
  user_headers-IsListed id cred none st h = nothing id cred st h
  user_headers-IsListed id cred (some Value.null) st h = nothing id cred st h
  user_headers-IsListed id cred (some (Value.object ms)) st h =
      let (_, added) =
        fail_if-eq-ok
          (not (id == "")
            && not (ToolBinding.allow_user_headers (binding_of cred))
            && has_members ms)
          headers_not_allowed _ st h in
      add_headers-IsListed id cred ms st added
  user_headers-IsListed id cred (some (Value.bool b)) st h = ground (arith, h)
  user_headers-IsListed id cred (some (Value.num n)) st h = ground (arith, h)
  user_headers-IsListed id cred (some (Value.str s)) st h = ground (arith, h)
  user_headers-IsListed id cred (some (Value.array es)) st h = ground (arith, h)
