-- ===== src/Pipeline/Paper/Embedding.antt =====
-- pipeline.py: what `_substitute_figure_placeholders` makes of a body written in pieces.
use mathodology.Prelude.{
  ℕ, ◌+◌, ◌≡◌, ◌≢◌, refl, ap, sym, ◌∙◌, true, false, Option, none, some, List, [], ◌∷◌, ◌++◌, arith,
  ◌==◌, length, length-append, All,
}
use mathlib.Core.List.{append_assoc}
use mathodology.Text.{Text, text}
use mathodology.Text.Match.{span}
use mathodology.Contracts.Artifacts.{Figure}
use mathodology.Pipeline.Paper.{
  is_slug, opening, closing, closed, placeholder_at, by_id, repl, substitute_from, substitute,
}

-- A piece of a body: a text without brackets, or a placeholder with the id of a figure.
pub data Piece : Type 0 where
  prose : Text → Piece
  placed : Text → Piece

-- As the Writer writes it.
abbrev pub written : List Piece → Text
written [] = []
written (prose t ∷ ps) = t ++ written ps
written (placed id ∷ ps) = opening ++ (id ++ (closing ++ written ps))

-- As the preview shows it.
abbrev pub shown : {Num : Type 0} → List (Figure Num) → List Piece → Text
shown figures [] = []
shown figures (prose t ∷ ps) = t ++ shown figures ps
shown figures (placed id ∷ ps) = repl (by_id figures id) ++ shown figures ps

-- A text has no `[`; an id is not empty and has only the characters of a slug.
abbrev pub IsProper : Piece → Type 0
IsProper (prose t) = All (λ c. (91 == c) ≡ false) t
IsProper (placed id) = (id ≢ []) × All (λ c. is_slug c ≡ true) id

span-slug :
    (id rest : Text)
    → All (λ c. is_slug c ≡ true) id
    → span is_slug (id ++ (closing ++ rest)) ≡ (id, closing ++ rest)
span-slug [] rest h = refl
span-slug (c ∷ id) rest h = rw (h.0, span-slug id rest h.1)

placeholder_there :
    (id rest : Text)
    → id ≢ []
    → All (λ c. is_slug c ≡ true) id
    → placeholder_at (opening ++ (id ++ (closing ++ rest))) ≡ some id
placeholder_there [] rest some_id h = absurd (some_id refl)
placeholder_there (c ∷ id) rest some_id h = ap closed (span-slug (c ∷ id) rest h)

module _ {Num : Type 0} (figures : List (Figure Num)) where
  skipped :
      (xs rest : Text) → substitute_from figures (length xs) (xs ++ rest) ≡ substitute figures rest
  unfolding substitute_from
  skipped [] rest = refl
  skipped (x ∷ xs) rest = skipped xs rest

  no_placeholder : (c : ℕ) (t : Text) → (91 == c) ≡ false → placeholder_at (c ∷ t) ≡ none
  no_placeholder c t h = rw h

  -- What one step makes of the first character, by the placeholder that begins there.
  abbrev replaced : ℕ → Text → Option Text → Text
  replaced c t none = c ∷ substitute figures t
  replaced c t (some id) = repl (by_id figures id) ++ substitute_from figures (length id + 7) t

  replaced_lem :
      (c : ℕ) (t : Text) (o : Option Text)
      → (elim o [
        | none ↦ c ∷ substitute figures t
        | some id ↦ repl (by_id figures id) ++ substitute_from figures (length id + 7) t
      ])
        ≡ replaced c t o
  replaced_lem c t none = refl
  replaced_lem c t (some id) = refl

  first_step :
      (c : ℕ) (t : Text) → substitute figures (c ∷ t) ≡ replaced c t (placeholder_at (c ∷ t))
  unfolding substitute_from
  first_step c t = replaced_lem c t (placeholder_at (c ∷ t))

  substitute-prose :
      (t rest : Text)
      → All (λ c. (91 == c) ≡ false) t
      → substitute figures (t ++ rest) ≡ t ++ substitute figures rest
  unfolding substitute_from
  substitute-prose [] rest h = refl
  substitute-prose (c ∷ t) rest h =
      first_step c (t ++ rest)
      ∙ ap (replaced c (t ++ rest)) (no_placeholder c (t ++ rest) h.0)
      ∙ ap (λ x. c ∷ x) (substitute-prose t rest h.1)

  -- A placeholder without its first character, and what follows it.
  abbrev after_first : Text → Text → Text
  after_first id rest = text "[FIG:" ++ (id ++ (closing ++ rest))

  past_placeholder :
      (id rest : Text)
      → substitute_from figures (length id + 7) (after_first id rest) ≡ substitute figures rest
  past_placeholder id rest =
      ap (λ n. substitute_from figures n (after_first id rest)) (sym counted)
      ∙ ap (substitute_from figures (length (text "[FIG:" ++ (id ++ closing)))) (sym regrouped)
      ∙ skipped (text "[FIG:" ++ (id ++ closing)) rest
    where
      counted : length (text "[FIG:" ++ (id ++ closing)) ≡ length id + 7
      counted = omega (arith, length-append id closing)

      regrouped : (text "[FIG:" ++ (id ++ closing)) ++ rest ≡ after_first id rest
      regrouped = ap (λ x. text "[FIG:" ++ x) (append_assoc id closing rest)

  substitute-placed :
      (id rest : Text)
      → id ≢ []
      → All (λ c. is_slug c ≡ true) id
      → substitute figures (opening ++ (id ++ (closing ++ rest)))
        ≡ repl (by_id figures id) ++ substitute figures rest
  unfolding substitute_from
  substitute-placed id rest some_id h =
      first_step 91 (after_first id rest)
      ∙ ap (replaced 91 (after_first id rest)) (placeholder_there id rest some_id h)
      ∙ ap (λ x. repl (by_id figures id) ++ x) (past_placeholder id rest)

  -- In a body made of texts without `[` and of placeholders with proper ids, every placeholder
  -- becomes the image of the last figure of its id, or nothing if there is none, and the texts
  -- stay as they are.
  pub substitute-written :
      (ps : List Piece) → All IsProper ps → substitute figures (written ps) ≡ shown figures ps
  unfolding substitute_from
  substitute-written [] h = refl
  substitute-written (prose t ∷ ps) h =
      substitute-prose t (written ps) h.0 ∙ ap (λ x. t ++ x) (substitute-written ps h.1)
  substitute-written (placed id ∷ ps) h =
      substitute-placed id (written ps) h.0.0 h.0.1
      ∙ ap (λ x. repl (by_id figures id) ++ x) (substitute-written ps h.1)
