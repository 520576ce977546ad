-- ===== src/Agent/Parser/Object.antt =====
-- What extractJSONObject of agent/parser.go cuts out of a text.
use mister_morph.Base.{
  ℕ, suc, ◌-◌, String, ◌≡◌, refl, ap, ◌∙◌, Bool, true, false, ◌&&◌, none, some, nat_eq, arith, ◌||◌,
}
use Prim.Native.Char.{Char, code}
use mister_morph.Agent.Parser.{push, scan_object, extract_from, extract_json_object}
use Prim.Native.String
use Prim.Native.String.append

-- The grammar of the braces of a JSON text. `Rest q n s`: `s` is the rest of an object up to its closing
-- brace, with `n` objects open, that one included; `q` says whether it starts inside of a string.
pub data Rest : Bool → ℕ → String → Type 0 where
  last_brace : (c : Char) → code c ≡ 125 → Rest false 1 (String.◌∷◌ c String.[])
  close_brace :
      (c : Char) (n : ℕ) (s : String)
      → code c ≡ 125
      → Rest false (suc n) s
      → Rest false (suc (suc n)) (String.◌∷◌ c s)
  open_brace :
      (c : Char) (n : ℕ) (s : String)
      → code c ≡ 123
      → Rest false (suc n) s
      → Rest false n (String.◌∷◌ c s)
  open_quote :
      (c : Char) (n : ℕ) (s : String) → code c ≡ 34 → Rest true n s → Rest false n (String.◌∷◌ c s)
  plain :
      (c : Char) (n : ℕ) (s : String)
      → (nat_eq (code c) 34 || (nat_eq (code c) 123 || nat_eq (code c) 125)) ≡ false
      → Rest false n s
      → Rest false n (String.◌∷◌ c s)
  close_quote :
      (c : Char) (n : ℕ) (s : String) → code c ≡ 34 → Rest false n s → Rest true n (String.◌∷◌ c s)
  escaped :
      (c d : Char) (n : ℕ) (s : String)
      → code c ≡ 92
      → Rest true n s
      → Rest true n (String.◌∷◌ c (String.◌∷◌ d s))
  quoted :
      (c : Char) (n : ℕ) (s : String)
      → (nat_eq (code c) 34 || nat_eq (code c) 92) ≡ false
      → Rest true n s
      → Rest true n (String.◌∷◌ c s)

-- A brace, and the rest of an object.
pub data IsObject : String → Type 0 where
  is_object : (c : Char) (s : String) → code c ≡ 123 → Rest false 1 s → IsObject (String.◌∷◌ c s)

-- No brace opens in the text.
unfoldable pub HasNoBrace : String → Type 0
HasNoBrace String.[] = Unit
HasNoBrace (String.◌∷◌ c s) = (nat_eq (code c) 123 ≡ false) × HasNoBrace s

module _ (post : String) where
  scan-Rest :
      (q : Bool) (n : ℕ) (s : String)
      → Rest q n s
      → scan_object n q false (String.◌++◌ s post) ≡ some s
  unfolding scan_object
  scan-Rest false n s (last_brace c h) = rw (append.cons, h) refl
  scan-Rest false n s (close_brace c k t h r) =
      let one_less : suc (suc k) - 1 ≡ suc k = omega arith in
      let some_open : nat_eq (suc k) 0 ≡ false = ground arith in
      rw append.cons (rw (h, one_less, some_open) (ap (push c) (scan-Rest false (suc k) t r)))
  scan-Rest false n s (open_brace c k t h r) =
      rw append.cons (rw h (ap (push c) (scan-Rest false (suc n) t r)))
  scan-Rest false n s (open_quote c k t h r) =
      rw append.cons (rw h (ap (push c) (scan-Rest true n t r)))
  scan-Rest false n s (plain c k t h r) =
      let no_quote : nat_eq (code c) 34 ≡ false = ground (arith, h) in
      let no_open : nat_eq (code c) 123 ≡ false = ground (arith, h) in
      let no_close : nat_eq (code c) 125 ≡ false = ground (arith, h) in
      let no_escape : (nat_eq (code c) 92 && false) ≡ false = ground arith in
      rw append.cons
        (rw (no_escape, no_quote, no_open, no_close) (ap (push c) (scan-Rest false n t r)))
  scan-Rest true n s (close_quote c k t h r) =
      rw append.cons (rw h (ap (push c) (scan-Rest false n t r)))
  scan-Rest true n s (escaped c d k t h r) =
      rw (append.cons, append.cons) (rw h (ap (λ o. push c (push d o)) (scan-Rest true n t r)))
  scan-Rest true n s (quoted c k t h r) =
      let no_quote : nat_eq (code c) 34 ≡ false = ground (arith, h) in
      let no_escape : nat_eq (code c) 92 ≡ false = ground (arith, h) in
      rw append.cons (rw (no_escape, no_quote) (ap (push c) (scan-Rest true n t r)))

  extract_from-IsObject : (s : String) → IsObject s → extract_from (String.◌++◌ s post) ≡ some s
  unfolding extract_from
  extract_from-IsObject s (is_object c t h r) =
      rw append.cons (rw h (unfold scan_object in ap (push c) (scan-Rest false 1 t r)))

  extract_from-later :
      (pre s : String) → HasNoBrace pre → extract_from (String.◌++◌ pre s) ≡ extract_from s
  unfolding extract_from HasNoBrace
  extract_from-later String.[] s h = rw append.nil refl
  extract_from-later (String.◌∷◌ c pre) s h =
      rw append.cons (rw (h.0) (extract_from-later pre s h.1))

-- Of a text with an object in it, and no brace that opens before, extractJSONObject returns exactly
-- that object: braces count except in strings, where a backslash escapes what follows.
pub extract_json_object-IsObject :
    (pre s post : String)
    → HasNoBrace pre
    → IsObject s
    → extract_json_object (String.◌++◌ pre (String.◌++◌ s post)) ≡ s
unfolding extract_json_object
extract_json_object-IsObject pre s post n h =
    ap (λ o. elim o as (λ _. String) [ none ↦ "" | some r ↦ r ])
      (extract_from-later post pre (String.◌++◌ s post) n ∙ extract_from-IsObject post s h)
