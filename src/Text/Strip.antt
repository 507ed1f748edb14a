-- ===== src/Text/Strip.antt =====
-- `strip` keeps a text whose first character is no blank non-empty, with that first character.
use mathodology.Prelude.{ℕ, ◌≡◌, refl, true, false, List, [], ◌∷◌, ◌++◌}
use mathodology.Text.{Text, is_space, rstrip, strip, join, before, truthy}

-- The text begins with the character `c`.
abbrev pub Begins : ℕ → Text → Type 0
Begins c s = (t : Text) × (s ≡ c ∷ t)

module _ (c : ℕ) (solid : is_space c ≡ false) where
  before-Begins : (s : Text) → Begins c (before c s)
  before-Begins [] = ([], rw solid)
  before-Begins (d ∷ t) = (d ∷ t, refl)

  pub strip-Begins : (s : Text) → Begins c s → Begins c (strip s)
  unfolding strip
  strip-Begins s (t, e) = rw (e, solid) (before-Begins (rstrip t))

pub append-Begins : (c : ℕ) (s t : Text) → Begins c s → Begins c (s ++ t)
append-Begins c s t (r, e) = (r ++ t, rw e)

pub join-Begins :
    (c : ℕ) (sep s : Text) (rest : List Text) → Begins c s → Begins c (join sep (s ∷ rest))
unfolding join
join-Begins c sep s [] b = b
join-Begins c sep s (r ∷ rest) b = append-Begins c s (sep ++ join sep (r ∷ rest)) b

pub strip-nil : strip [] ≡ []
unfolding strip
strip-nil = refl

pub truthy-Begins : (c : ℕ) (s : Text) → Begins c s → truthy s ≡ true
truthy-Begins c s (t, e) = rw e
