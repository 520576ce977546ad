-- ===== src/Maep/Pushes.antt =====
-- Node.allowDataPush of maep/node.go, behind its lock. A time is the number of its minute; the window
-- of a peer that has pushed nothing has no minute.
use mister_morph.Base.{
  trim_space, ℕ, zero, suc, ◌+◌, String, Bool, true, false, Option, none, some, List, leb, nat_eq,
  if◌then◌else◌,
}
use mister_morph.Base.Json.{lookup}
use mister_morph.Base.Assoc.{put}

pub record PushRateWindow : Type 0 where
  pub window_minute : Option ℕ
  pub count : ℕ

abbrev pub or_no_window : Option PushRateWindow → PushRateWindow
or_no_window none = record { window_minute = none; count = 0 }
or_no_window (some w) = w

abbrev pub is_minute : Option ℕ → ℕ → Bool
is_minute none minute = false
is_minute (some m) minute = nat_eq m minute

abbrev pub window_in : ℕ → PushRateWindow → PushRateWindow
window_in minute w =
    if is_minute (PushRateWindow.window_minute w) minute
    then w
    else record { window_minute = some minute; count = 0 }

-- The window of the peer, begun again in another minute
unfoldable pub current_window : String → ℕ → List (String × PushRateWindow) → PushRateWindow
current_window peer minute windows = window_in minute (or_no_window (lookup peer windows))

unfoldable pub allow_data_push :
    ℕ → String → ℕ → List (String × PushRateWindow) → Bool × List (String × PushRateWindow)
allow_data_push zero peer_id minute windows = (true, windows)
allow_data_push (suc n) peer_id minute windows =
    let peer = trim_space peer_id in
    let w = current_window peer minute windows in
    if leb (suc n) (PushRateWindow.count w)
    then (false, put peer w windows)
    else (true, put peer (record w { count = PushRateWindow.count w + 1 }) windows)
