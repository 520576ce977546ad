-- ===== src/Base/Path.antt =====
-- Go's path.Clean on the segments between slashes, and what holds of a cleaned path.
use Prim.Native.String
use Prim.Native.String.append
use Prim.Native.String.{String}
use mathlib.Core.Path.{◌≡◌, sym, ap, ◌∙◌}
use mathlib.Core.Logic.{◌≢◌}
use mathlib.Core.Bool.{Bool, true, ◌||◌}
use mathlib.Core.List.{List, [], ◌∷◌, ◌++◌}
use text.Mathlib.Text.{◌==◌, starts_with}
use text.Mathlib.TextEquality.{eq_iff}
use native.Mathlib.Omega.{arith}
use mister_morph.Base.Tests.{if◌then◌else◌}
use mister_morph.Base.Lists.{All}
use mister_morph.Base.Split.{split, split-append, IsSegment, IsSegment-split, split-IsSegment}

-- The segments kept so far stand with the last one first. A `..` removes the last one; at the root
-- there is none to remove.
abbrev back : Bool → List String → List String
back rooted [] = if rooted then [] else ".." ∷ []
back rooted (s ∷ kept) = if s == ".." then ".." ∷ s ∷ kept else kept

unfoldable keep : Bool → String → List String → List String
keep rooted s kept =
    if s == "" || s == "." then kept else if s == ".." then back rooted kept else s ∷ kept

unfoldable kept_of : Bool → List String → List String → List String
kept_of rooted [] kept = kept
kept_of rooted (s ∷ segments) kept = kept_of rooted segments (keep rooted s kept)

-- The text of the segments kept.
unfoldable text_of : List String → String
text_of [] = ""
text_of (s ∷ []) = s
text_of (s ∷ t ∷ kept) = String.◌++◌ (text_of (t ∷ kept)) (String.◌++◌ "/" s)

-- path.Clean
unfoldable pub clean : String → String
unfolding kept_of keep text_of
clean p =
    let rooted = starts_with p "/" in
    let body = text_of (kept_of rooted (split p) []) in
    if p == ""
    then "."
    else if rooted
    then String.◌++◌ "/" body
    else if body == ""
    then "."
    else body

-- A segment that names an entry of a directory.
unfoldable IsName : String → Type 0
IsName s = (s ≢ "") × (s ≢ ".") × (s ≢ "..") × IsSegment s

keep-IsName :
    (s : String) (kept : List String)
    → IsSegment s
    → All IsName kept
    → All IsName (keep true s kept)
unfolding keep IsName
keep-IsName s [] p h = ground (arith, eq_iff s "", eq_iff s ".", eq_iff s "..")
keep-IsName s (t ∷ kept) p h =
    ground (arith, eq_iff s "", eq_iff s ".", eq_iff s "..", eq_iff t "..")

kept_of-IsName :
    (segments kept : List String)
    → All IsSegment segments
    → All IsName kept
    → All IsName (kept_of true segments kept)
unfolding kept_of
kept_of-IsName [] kept p h = h
kept_of-IsName (s ∷ segments) kept p h =
    kept_of-IsName segments (keep true s kept) p.1 (keep-IsName s kept p.0 h)

-- A segment that cannot lead out of a directory.
unfoldable pub StaysInside : String → Type 0
StaysInside s = s ≢ ".."

append-StaysInside :
    (xs ys : List String) → All StaysInside xs → All StaysInside ys → All StaysInside (xs ++ ys)
append-StaysInside [] ys h k = k
append-StaysInside (x ∷ xs) ys h k = (h.0, append-StaysInside xs ys h.1 k)

split-IsName : (s : String) → IsName s → All StaysInside (split s)
unfolding IsName StaysInside
split-IsName s h = rw (IsSegment-split s h.3) (h.2, tt)

inside : StaysInside ""
unfolding StaysInside
inside = ground (arith, eq_iff "" "..")

split_empty-StaysInside : All StaysInside (split "")
unfolding split
split_empty-StaysInside = (inside, tt)

text_of-StaysInside :
    (kept : List String) → All IsName kept → All StaysInside (split (text_of kept))
unfolding text_of
text_of-StaysInside [] h = split_empty-StaysInside
text_of-StaysInside (s ∷ []) h = split-IsName s h.0
text_of-StaysInside (s ∷ t ∷ kept) h =
    rw (split-append (text_of (t ∷ kept)) s)
      (append-StaysInside _ _ (text_of-StaysInside (t ∷ kept) h.1) (split-IsName s h.0))

not_empty : (p : String) → starts_with p "/" ≡ true → p ≢ ""
not_empty p h e = ground (arith, sym h ∙ ap (λ t. starts_with t "/") e)

clean-rooted :
    (p : String)
    → starts_with p "/" ≡ true
    → clean p ≡ String.◌++◌ "/" (text_of (kept_of true (split p) []))
unfolding clean
clean-rooted p h = ground (arith, eq_iff p "", not_empty p h)

split-rooted : (t : String) → split (String.◌++◌ "/" t) ≡ "" ∷ split t
unfolding split
split-rooted t = ap split (sym (append.nil (String.◌++◌ "/" t))) ∙ split-append "" t

-- The segments of a cleaned rooted path stay inside the root.
pub clean-StaysInside : (p : String) → starts_with p "/" ≡ true → All StaysInside (split (clean p))
clean-StaysInside p h =
    let kept : All IsName (kept_of true (split p) []) =
      kept_of-IsName (split p) [] (split-IsSegment p) tt in
    rw (clean-rooted p h, split-rooted) (inside, text_of-StaysInside _ kept)

pub rooted-StaysInside :
    (t : String) → All StaysInside (split t) → All StaysInside (split (String.◌++◌ "/" t))
rooted-StaysInside t h = rw split-rooted (inside, h)
