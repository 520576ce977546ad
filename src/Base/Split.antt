-- ===== src/Base/Split.antt =====
-- strings.Split of a text at slashes, and its laws.
use Prim.Native.Char.{Char, code}
use Prim.Native.String
use Prim.Native.String.append
use Prim.Native.String.{String}
use mathlib.Core.Path.{◌≡◌, refl, ap, ◌∙◌}
use mathlib.Core.Bool.{Bool, true, false}
use mathlib.Core.List.{List, [], ◌∷◌, ◌++◌}
use mister_morph.Base.Tests.{nat_eq, Bool-cases}
use mister_morph.Base.Lists.{All}
use mathlib.Core.Logic.{inl, inr}

-- The segments as the first one and the others; a character is put in front of them.
abbrev push : Bool → Char → String × List String → String × List String
push true c (first, others) = ("", first ∷ others)
push false c (first, others) = (String.◌∷◌ c first, others)

unfoldable parts : String → String × List String
parts String.[] = ("", [])
parts (String.◌∷◌ c s) = push (nat_eq (code c) 47) c (parts s)

-- strings.Split(s, "/")
unfoldable pub split : String → List String
unfolding parts
split s = let p = parts s in p.0 ∷ p.1

more : String × List String → List String → String × List String
more (first, others) segments = (first, others ++ segments)

push-more :
    (b : Bool) (c : Char) (p : String × List String) (segments : List String)
    → push b c (more p segments) ≡ more (push b c p) segments
unfolding more
push-more true c (first, others) segments = refl
push-more false c (first, others) segments = refl

parts-append : (s t : String) → parts (String.◌++◌ s (String.◌++◌ "/" t)) ≡ more (parts s) (split t)
unfolding parts split more
parts-append String.[] t = rw (append.nil, append.cons, append.nil) refl
parts-append (String.◌∷◌ c s) t = rw (append.cons) (
    ap (push (nat_eq (code c) 47) c) (parts-append s t)
    ∙ push-more (nat_eq (code c) 47) c (parts s) (split t))

-- The segments of two texts with a slash between them are those of the one and those of the other.
pub split-append : (s t : String) → split (String.◌++◌ s (String.◌++◌ "/" t)) ≡ split s ++ split t
unfolding split more
split-append s t = ap (λ p. p.0 ∷ p.1) (parts-append s t)

-- A text without a slash.
unfoldable pub IsSegment : String → Type 0
unfolding parts
IsSegment s = parts s ≡ (s, [])

pub IsSegment-split : (s : String) → IsSegment s → split s ≡ s ∷ []
unfolding IsSegment split
IsSegment-split s h = ap (λ p. p.0 ∷ p.1) h

AreSegments : String × List String → Type 0
AreSegments (first, others) = IsSegment first × All IsSegment others

AreSegments-slash :
    (c : Char) (p : String × List String) → AreSegments p → AreSegments (push true c p)
unfolding AreSegments IsSegment parts
AreSegments-slash c (first, others) h = (refl, h)

AreSegments-extend :
    (c : Char) (p : String × List String)
    → nat_eq (code c) 47 ≡ false
    → AreSegments p
    → AreSegments (push false c p)
unfolding AreSegments IsSegment parts
AreSegments-extend c (first, others) b h = (rw b (ap (push false c) h.0), h.1)

AreSegments-parts : (s : String) → AreSegments (parts s)
unfolding AreSegments parts IsSegment
AreSegments-parts String.[] = (refl, tt)
AreSegments-parts (String.◌∷◌ c s) = elim (Bool-cases (nat_eq (code c) 47)) [
  | inl b ↦ rw b (AreSegments-slash c (parts s) (AreSegments-parts s))
  | inr b ↦ rw b (AreSegments-extend c (parts s) b (AreSegments-parts s))
]

-- The segments of a text have no slash.
pub split-IsSegment : (s : String) → All IsSegment (split s)
unfolding AreSegments split
split-IsSegment s = AreSegments-parts s
