-- ===== src/Base/Text.antt =====
-- The functions of Go's `strings` package that the program uses, on texts as lists of code points.
use Prim.Native.Nat.{ℕ, ◌+◌, ◌-◌, ◌*◌, ◌^◌}
use Prim.Native.Char.{Char, code}
use Prim.Native.String.{String, [], ◌∷◌, ◌++◌, compare}
use mathlib.Core.List.{List}
use mathlib.Core.Path.{◌≡◌, refl, ap, ◌∙◌}
use mathlib.Core.Logic.{inl, inr}
use mathlib.Core.Option.{Option, none, some}
use mathlib.Core.Bool.{Bool, false, ◌&&◌, ◌||◌}
use text.Mathlib.Text.{◌==◌, starts_with, is_lt}
use mister_morph.Base.Tests.{nat_eq, leb, ltb, if◌then◌else◌, Bool-cases}

-- unicode.IsSpace
unfoldable pub is_space : ℕ → Bool
is_space c =
    leb 9 c && leb c 13
    || nat_eq c 32
    || nat_eq c 0x85
    || nat_eq c 0xA0
    || nat_eq c 0x1680
    || leb 0x2000 c && leb c 0x200A
    || nat_eq c 0x2028
    || nat_eq c 0x2029
    || nat_eq c 0x202F
    || nat_eq c 0x205F
    || nat_eq c 0x3000

unfoldable pub trim_left : String → String
unfolding is_space
trim_left [] = []
trim_left (c ∷ s) = if is_space (code c) then trim_left s else c ∷ s

abbrev drop_blank : Char → String → String
drop_blank c [] = if is_space (code c) then [] else c ∷ []
drop_blank c (d ∷ s) = c ∷ d ∷ s

unfoldable pub trim_right : String → String
unfolding is_space
trim_right [] = []
trim_right (c ∷ s) = drop_blank c (trim_right s)

-- strings.TrimSpace
unfoldable pub trim_space : String → String
unfolding trim_left trim_right
trim_space s = trim_right (trim_left s)

abbrev mapped_in : String → String → Char → Char
mapped_in (u ∷ us) (l ∷ ls) c = if nat_eq (code c) (code u) then l else mapped_in us ls c
mapped_in _ _ c = c

-- strings.ToLower on ASCII letters; other letters stay as they are.
unfoldable pub to_lower : String → String
to_lower [] = []
to_lower (c ∷ s) =
    mapped_in "ABCDEFGHIJKLMNOPQRSTUVWXYZ" "abcdefghijklmnopqrstuvwxyz" c ∷ to_lower s

-- strings.ToUpper on ASCII letters; other letters stay as they are.
unfoldable pub to_upper : String → String
to_upper [] = []
to_upper (c ∷ s) =
    mapped_in "abcdefghijklmnopqrstuvwxyz" "ABCDEFGHIJKLMNOPQRSTUVWXYZ" c ∷ to_upper s

-- The number that a text of decimal digits continues.
digits_onto : ℕ → String → Option ℕ
digits_onto n [] = some n
digits_onto n (c ∷ s) =
    let rest = digits_onto (n * 10 + (code c - 48)) s in
    if leb 48 (code c) && leb (code c) 57 then rest else none

-- strconv.Atoi on a text without a sign; a number that a 64-bit int does not hold is an error.
unfoldable pub atoi : String → Option ℕ
unfolding digits_onto
atoi [] = none
atoi (c ∷ s) = elim (digits_onto 0 (c ∷ s)) [
  | none ↦ none
  | some n ↦ if ltb n (2 ^ 63) then some n else none
]

trim_right-drop_blank :
    (c : Char) (s : String) → trim_right s ≡ s → trim_right (drop_blank c s) ≡ drop_blank c s
unfolding trim_right
trim_right-drop_blank c [] h = elim (Bool-cases (is_space (code c))) [
  | inl b ↦ rw b
  | inr b ↦ rw b (rw b)
]
trim_right-drop_blank c (d ∷ s) h = rw h

trim_right-trim_right : (s : String) → trim_right (trim_right s) ≡ trim_right s
unfolding trim_right
trim_right-trim_right [] = refl
trim_right-trim_right (c ∷ s) = trim_right-drop_blank c (trim_right s) (trim_right-trim_right s)

-- A text that does not begin with white space does not after its end is trimmed.
trim_left-drop_blank :
    (c : Char) (s : String)
    → is_space (code c) ≡ false
    → trim_left (drop_blank c s) ≡ drop_blank c s
unfolding trim_left
trim_left-drop_blank c [] h = rw h (rw h)
trim_left-drop_blank c (d ∷ s) h = rw h

trim_left-trim_space : (s : String) → trim_left (trim_space s) ≡ trim_space s
unfolding trim_space
trim_left-trim_space [] = refl
trim_left-trim_space (c ∷ s) = elim (Bool-cases (is_space (code c))) [
  | inl b ↦ rw b (trim_left-trim_space s)
  | inr b ↦ rw b (trim_left-drop_blank c (trim_right s) b)
]

-- Trimming twice is trimming once.
pub trim_space-trim_space : (s : String) → trim_space (trim_space s) ≡ trim_space s
unfolding trim_space
trim_space-trim_space s =
    ap trim_right (trim_left-trim_space s) ∙ trim_right-trim_right (trim_left s)

-- The pieces of a text, one after the other.
unfoldable pub concat : List String → String
concat List.[] = ""
concat (List.◌∷◌ s ss) = s ++ concat ss

-- strings.Join
unfoldable pub join : String → List String → String
unfolding concat
join sep List.[] = ""
join sep (List.◌∷◌ s List.[]) = s
join sep (List.◌∷◌ s (List.◌∷◌ t ts)) = s ++ (sep ++ join sep (List.◌∷◌ t ts))

-- A text with nothing but white space.
unfoldable pub is_blank : String → Bool
unfolding trim_space
is_blank s = trim_space s == ""

-- strings.Contains
unfoldable pub contains : String → String → Bool
contains [] part = part == ""
contains (c ∷ s) part = starts_with (c ∷ s) part || contains s part

-- Go's `<` on strings.
abbrev pub text_lt : String → String → Bool
text_lt s t = is_lt (compare s t)
