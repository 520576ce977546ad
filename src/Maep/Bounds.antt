-- ===== src/Maep/Bounds.antt =====
-- The rate limit of maep/node.go, and the version that two agents agree on.
use mister_morph.Maep.Pushes.{
  window_in, is_minute, or_no_window, current_window, allow_data_push, PushRateWindow,
}
use mister_morph.Base.{
  eq_iff, leb, ltb, trim_space, ℕ, zero, suc, ◌+◌, ◌-◌, ◌≤◌, ◌<◌, String, ◌≡◌, refl, ap, ◌∙◌, ◌↔◌,
  Bool, true, false, ◌&&◌, some, List, [], ◌∷◌, arith, ◌==◌, if◌then◌else◌,
}
use mister_morph.Base.Result.{ok}
use mister_morph.Base.Json.{lookup}
use mister_morph.Base.Assoc.{put, lookup-put}
use mister_morph.Maep.Protocol.{negotiate_protocol}

-- The pushes of a peer that are accepted when peers call in one minute, one after the other
unfoldable pub accepted : ℕ → String → ℕ → List String → List (String × PushRateWindow) → ℕ
accepted limit peer minute [] windows = 0
accepted limit peer minute (id ∷ ids) windows =
    let r = allow_data_push limit id minute windows in
    accepted limit peer minute ids r.1 + (if trim_space id == peer && r.0 then 1 else 0)

-- What the peer has used of its window
abbrev used : String → ℕ → List (String × PushRateWindow) → ℕ
used peer minute windows = PushRateWindow.count (current_window peer minute windows)

current_window-minute :
    (peer : String) (minute : ℕ) (windows : List (String × PushRateWindow))
    → is_minute (PushRateWindow.window_minute (current_window peer minute windows)) minute ≡ true
unfolding current_window
current_window-minute peer minute windows = by_minute (or_no_window (lookup peer windows)) _ refl
  where
    by_minute :
        (w : PushRateWindow) (b : Bool)
        → is_minute (PushRateWindow.window_minute w) minute ≡ b
        → is_minute
            (PushRateWindow.window_minute
              (if b then w else record { window_minute = some minute; count = 0 }))
            minute
          ≡ true
    by_minute w true e = e
    by_minute w false e = ground arith

used-put :
    (peer id : String) (minute : ℕ) (w : PushRateWindow) (windows : List (String × PushRateWindow))
    → is_minute (PushRateWindow.window_minute w) minute ≡ true
    → used peer minute (put id w windows)
      ≡ (if id == peer then PushRateWindow.count w else used peer minute windows)
unfolding current_window
used-put peer id minute w windows m =
    ap (λ o. PushRateWindow.count (window_in minute (or_no_window o)))
      (lookup-put id peer w windows)
    ∙ by_key (id == peer)
  where
    by_key :
        (b : Bool)
        → PushRateWindow.count
            (window_in minute (or_no_window (if b then some w else lookup peer windows)))
          ≡ (if b
              then PushRateWindow.count w
              else PushRateWindow.count (window_in minute (or_no_window (lookup peer windows))))
    by_key true = ground (arith, m)
    by_key false = refl

abbrev windows_of : Bool × List (String × PushRateWindow) → List (String × PushRateWindow)
windows_of r = r.1

abbrev is_accepted : Bool × List (String × PushRateWindow) → Bool
is_accepted r = r.0

allow_data_push-used :
    (n : ℕ) (peer id : String) (minute : ℕ) (windows : List (String × PushRateWindow))
    → (let r = allow_data_push (suc n) id minute windows in
        (suc n - used peer minute r.1) + (if trim_space id == peer && r.0 then 1 else 0)
        ≤ suc n - used peer minute windows)
unfolding allow_data_push
allow_data_push-used n peer id minute windows =
    let t = trim_space id in
    let w = current_window t minute windows in
    let in_minute = current_window-minute t minute windows in
    by_tests (t == peer) (leb (suc n) (PushRateWindow.count w)) _ _ _ refl
      (λ e. ap (λ q. used q minute windows) ((eq_iff t peer).0 e))
      (used-put peer t minute w windows in_minute)
      (used-put peer t minute (record w { count = PushRateWindow.count w + 1 }) windows in_minute)
  where
    by_tests :
        (s full : Bool) (x y : List (String × PushRateWindow)) (c : ℕ)
        → leb (suc n) c ≡ full
        → (s ≡ true → c ≡ used peer minute windows)
        → used peer minute x ≡ (if s then c else used peer minute windows)
        → used peer minute y ≡ (if s then c + 1 else used peer minute windows)
        → (suc n - used peer minute (windows_of (if full then (false, x) else (true, y))))
            + (if s && is_accepted (if full then (false, x) else (true, y)) then 1 else 0)
          ≤ suc n - used peer minute windows
    by_tests true true x y c r e k m = ground (arith, r, e refl, k, m)
    by_tests true false x y c r e k m = ground (arith, r, e refl, k, m)
    by_tests false true x y c r e k m = ground (arith, r, k, m)
    by_tests false false x y c r e k m = ground (arith, r, k, m)

accepted-used :
    (n : ℕ) (peer : String) (minute : ℕ) (ids : List String)
    (windows : List (String × PushRateWindow))
    → accepted (suc n) peer minute ids windows ≤ suc n - used peer minute windows
unfolding accepted
accepted-used n peer minute [] windows = omega arith
accepted-used n peer minute (id ∷ ids) windows = omega (
  arith,
  accepted-used n peer minute ids ((allow_data_push (suc n) id minute windows).1),
  allow_data_push-used n peer id minute windows,
)

-- With a positive limit, whatever the windows are, and whichever peers push in one minute, no peer has
-- more pushes accepted than the limit.
pub accepted-limit :
    (limit : ℕ) (peer : String) (minute : ℕ) (ids : List String)
    (windows : List (String × PushRateWindow))
    → 0 < limit
    → accepted limit peer minute ids windows ≤ limit
accepted-limit zero peer minute ids windows h = omega (arith, h)
accepted-limit (suc n) peer minute ids windows h =
    omega (arith, accepted-used n peer minute ids windows)

-- A version that both agents speak.
unfoldable pub InBoth : (local_min local_max remote_min remote_max v : ℕ) → Type 0
InBoth local_min local_max remote_min remote_max v =
    (local_min ≤ v) × (v ≤ local_max) × (remote_min ≤ v) × (v ≤ remote_max)

-- negotiateProtocol gives a version exactly if it is the greatest one that both agents speak.
pub negotiate_protocol-greatest :
    (a b c d v : ℕ)
    → (negotiate_protocol a b c d ≡ ok v)
      ↔ (InBoth a b c d v × ((u : ℕ) → InBoth a b c d u → u ≤ v))
unfolding negotiate_protocol InBoth
negotiate_protocol-greatest a b c d v = (
  λ h. (ground (arith, h), λ u k. ground (arith, h, k)),
  λ k. ground (arith, k.0, k.1 (if ltb d b then d else b) (ground (arith, k.0))),
)
