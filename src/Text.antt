-- ===== src/Text.antt =====
-- Python's `str` as its list of code points, and the methods that the worker calls on it.
pub mod Strip
pub mod Match
pub mod Replace
use mathodology.Prelude.{
  ℕ, zero, suc, ◌+◌, ◌/◌, ◌%◌, ◌≤◌, String, ◌≡◌, refl, Bool, true, false, ◌&&◌, ◌||◌, List, [], ◌∷◌,
  ◌++◌, arith, leb, ltb, ◌==◌, if◌then◌else◌, length,
}
use Prim.Native.Char.{code}

abbrev pub Text : Type 0
Text = List ℕ

-- The code points of a literal.
abbrev pub text : String → Text
text String.[] = []
text (String.◌∷◌ c s) = code c ∷ text s

infix 50 ◌=ₜ◌
abbrev pub ◌=ₜ◌ : Text → Text → Bool
[] =ₜ [] = true
[] =ₜ (d ∷ t) = false
(c ∷ s) =ₜ [] = false
(c ∷ s) =ₜ (d ∷ t) = (c == d) && (s =ₜ t)

-- `bool(s)`
abbrev pub truthy : Text → Bool
truthy [] = false
truthy (c ∷ s) = true

-- `str.isspace` of one character, for every code point that Python counts as white space.
abbrev pub is_space : ℕ → Bool
is_space c =
    (leb 9 c && leb c 13)
    || (leb 28 c && leb c 32)
    || c == 133
    || c == 160
    || c == 5760
    || (leb 8192 c && leb c 8202)
    || c == 8232
    || c == 8233
    || c == 8239
    || c == 8287
    || c == 12288

unfoldable pub lstrip : Text → Text
lstrip [] = []
lstrip (c ∷ s) = let rest = lstrip s in if is_space c then rest else c ∷ s

-- One more character in front of a text whose trailing blanks are gone.
abbrev pub before : ℕ → Text → Text
before c [] = if is_space c then [] else c ∷ []
before c (d ∷ t) = c ∷ d ∷ t

unfoldable pub rstrip : Text → Text
rstrip [] = []
rstrip (c ∷ s) = before c (rstrip s)

-- `s.strip()`
unfoldable pub strip : Text → Text
unfolding lstrip rstrip
strip s = rstrip (lstrip s)

-- `sep.join(parts)`
unfoldable pub join : Text → List Text → Text
join sep [] = []
join sep (s ∷ []) = s
join sep (s ∷ t ∷ rest) = s ++ (sep ++ join sep (t ∷ rest))

abbrev pub newline : ℕ
newline = 10

-- The text of a number, `str(n)` and `f"{n}"`: decimal digits, by fuel on the number itself.
digits : ℕ → ℕ → Text → Text
digits zero n acc = acc
digits (suc f) n acc =
    let more = digits f (n / 10) ((48 + n % 10) ∷ acc) in if ltb n 10 then (48 + n) ∷ acc else more

unfoldable pub decimal : ℕ → Text
unfolding digits
decimal n = digits (n + 1) n []
