-- ===== src/Secrets/Segments.antt =====
-- pathPrefixMatch of secrets/types.go, by segments.
use mister_morph.Base.{
  trim_space, is_blank, String, ◌≡◌, refl, sym, ap, ◌∙◌, ◌⊎◌, inl, inr, Bool, true, false, ◌||◌,
  List, [], ◌++◌, arith, ◌==◌, starts_with, eq_iff, if◌then◌else◌, All,
}
use mister_morph.Base.Split.{split, split-append}
use mister_morph.Base.Path.{clean, StaysInside, clean-StaysInside, rooted-StaysInside}
use mister_morph.Secrets.Types.{Url}
use mister_morph.Secrets.Access.{root_if_empty, path_prefix_match, clean_path}
use text.Mathlib.TextLemmas.{append_assoc}
use mathlib.Core.List.{append-nil}
use text.Mathlib.TextEquality.{starts_with_iff}
use Prim.Native.String

-- The segments of the prefix are the first ones of the path; the prefix `/` stands for every path.
unfoldable pub Covers : String → String → Type 0
Covers prefix path =
    (root_if_empty (trim_space prefix) ≡ "/")
    ⊎ ((rest : List String) × (split (root_if_empty (trim_space path))
          ≡ split (root_if_empty (trim_space prefix)) ++ rest))

starts-Covers :
    (rp pp : String)
    → starts_with rp (String.◌++◌ pp "/") ≡ true
    → (rest : List String) × (split rp ≡ split pp ++ rest)
starts-Covers rp pp h =
    let p = (starts_with_iff rp (String.◌++◌ pp "/")).0 h in
    (split p.0, ap split (sym p.1 ∙ append_assoc pp "/" p.0) ∙ split-append pp p.0)

pub path_prefix_match-Covers :
    (path prefix : String) → path_prefix_match path prefix ≡ true → Covers prefix path
unfolding path_prefix_match Covers
path_prefix_match-Covers path prefix h =
    let rp = root_if_empty (trim_space path) in
    let pp = root_if_empty (trim_space prefix) in
    by_test rp pp (pp == "/") (rp == pp) (starts_with rp (String.◌++◌ pp "/")) refl refl refl h
  where
    by_test :
        (rp pp : String) (a b c : Bool)
        → (pp == "/") ≡ a
        → (rp == pp) ≡ b
        → starts_with rp (String.◌++◌ pp "/") ≡ c
        → (a || b || c) ≡ true
        → (pp ≡ "/") ⊎ ((rest : List String) × (split rp ≡ split pp ++ rest))
    by_test rp pp true b c ea eb ec h = inl ((eq_iff pp "/").0 ea)
    by_test rp pp false true c ea eb ec h =
        inr ([], ap split ((eq_iff rp pp).0 eb) ∙ sym (append-nil (split pp)))
    by_test rp pp false false c ea eb ec h = inr (starts-Covers rp pp (ec ∙ h))

-- A URL whose path is blank or rooted, as net/url gives it for a URL with a host.
unfoldable pub IsRooted : Url → Type 0
IsRooted u = (is_blank (Url.path u) ≡ true) ⊎ (starts_with (Url.path u) "/" ≡ true)

pub clean_path-StaysInside : (u : Url) → IsRooted u → All StaysInside (split (clean_path u))
unfolding clean_path IsRooted
clean_path-StaysInside u h =
    by_root (starts_with (clean (chosen u)) "/") (clean-StaysInside (chosen u) (rooted u h))
  where
    chosen : Url → String
    chosen u = if is_blank (Url.path u) then "/" else Url.path u

    by_blank :
        (u : Url) (b : Bool)
        → is_blank (Url.path u) ≡ b
        → IsRooted u
        → starts_with (if b then "/" else Url.path u) "/" ≡ true
    by_blank u true e h = refl
    by_blank u false e (inl b) = ground (arith, sym e ∙ b)
    by_blank u false e (inr b) = b

    rooted : (u : Url) → IsRooted u → starts_with (chosen u) "/" ≡ true
    rooted u h = by_blank u (is_blank (Url.path u)) refl h

    by_root :
        (b : Bool)
        → All StaysInside (split (clean (chosen u)))
        → All StaysInside
            (split (if b then clean (chosen u) else String.◌++◌ "/" (clean (chosen u))))
    by_root true h = h
    by_root false h = rooted-StaysInside _ h
