-- ===== src/Text/Match.antt =====
-- What the worker's regular expressions do, one piece at a time: a literal, the longest run of a
-- character class, and the search for a substring.
use mathodology.Prelude.{
  ℕ, Bool, true, false, Option, none, some, [], ◌∷◌, ◌||◌, ◌==◌, ltb, if◌then◌else◌,
}
use mathodology.Text.{Text}

-- What follows the literal `p`, if the text begins with it.
abbrev pub after_prefix : Text → Text → Option Text
after_prefix [] t = some t
after_prefix (c ∷ p) [] = none
after_prefix (c ∷ p) (d ∷ t) = let rest = after_prefix p t in if c == d then rest else none

-- The longest run of the class `p`, and what follows it.
abbrev pub span : (ℕ → Bool) → Text → Text × Text
span p [] = ([], [])
span p (c ∷ t) = let (run, rest) = span p t in if p c then (c ∷ run, rest) else ([], c ∷ t)

abbrev pub is_some {ℓ} : {A : Type ℓ} → Option A → Bool
is_some none = false
is_some (some a) = true

-- `key in t`
abbrev pub contains : Text → Text → Bool
contains key [] = is_some (after_prefix key [])
contains key (c ∷ t) = is_some (after_prefix key (c ∷ t)) || contains key t

-- `s < t` for texts, by code points.
abbrev pub text_lt : Text → Text → Bool
text_lt s [] = false
text_lt [] (d ∷ t) = true
text_lt (c ∷ s) (d ∷ t) = let rest = text_lt s t in if c == d then rest else ltb c d
