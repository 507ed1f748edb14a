-- ===== src/Audit/Coverage.antt =====
-- audit.py: what the checks of the sub-questions and of the fonts ask of a paper.
use mathodology.Prelude.{
  ◌≡◌, refl, ap, sym, ◌∙◌, ◌↔◌, ◌⊎◌, inl, inr, take, not, none_some, true-false, Bool, true, false,
  ◌&&◌, Option, none, some, List, [], ◌∷◌, arith, All, Bool-cases,
}
use mathodology.Text.{Text, text, ◌=ₜ◌, strip, truthy}
use mathodology.Text.Match.{span, contains}
use mathodology.Audit.{
  Library, missing_of, heads, without_heading, glyphs_of, check_figure_glyphs_broken,
}

guard_false :
    (a b c : Bool) → ((a && b && not c) ≡ false) ↔ ((a ≡ false) ⊎ ((b ≡ false) ⊎ (c ≡ true)))
guard_false a b c = (λ h. ground arith, λ h. ground arith)

cons_nil : {A : Type 0} {x : A} {xs : List A} → x ∷ xs ≡ [] → ⊥
cons_nil h = cc

some_injective : {a b : Text} → some a ≡ some b → a ≡ b
some_injective h = cc

module _ {W : Type 0} (lib : Library W) (paper_md : Text) (w : W) where
  -- What is left of a sub-question without its heading.
  abbrev pub asked_of : Text → Text
  asked_of q = strip (without_heading lib.is_digit q (span heads q))

  -- A sub-question is blank, or has no letters to look for, or the paper has its beginning.
  abbrev pub Covered : Text → Type 0
  Covered q =
      (truthy (asked_of q) ≡ false)
      ⊎ ((truthy (lib.lower (take 12 (asked_of q))) ≡ false)
          ⊎ (contains (lib.lower (take 12 (asked_of q))) (lib.lower paper_md) ≡ true))

  -- The kernel has left no verdict on its fonts, or one that is not "false".
  abbrev pub FontsFine : Type 0
  FontsFine =
      (lib.font_sentinel w ≡ none)
      ⊎ ((content : Text) × (lib.font_sentinel w ≡ some content)
          × ((lib.lower (strip content) =ₜ text "false") ≡ false))

  pub missing_none : (qs : List Text) → (missing_of lib qs paper_md ≡ []) ↔ All Covered qs
  unfolding missing_of
  missing_none [] = (λ _. tt, λ _. refl)
  missing_none (q ∷ qs) =
      let (fine, asks) =
        guard_false (truthy (asked_of q)) (truthy (lib.lower (take 12 (asked_of q))))
          (contains (lib.lower (take 12 (asked_of q))) (lib.lower paper_md)) in
      let rest = missing_none qs in
      elim (Bool-cases (
        truthy (asked_of q)
        && truthy (lib.lower (take 12 (asked_of q)))
        && not (contains (lib.lower (take 12 (asked_of q))) (lib.lower paper_md)))) [
          | inl e ↦ rw e (λ h. absurd (cons_nil h), λ h. absurd (true-false (sym e ∙ asks h.0)))
          | inr e ↦ rw e (λ h. (fine e, rest.0 h), λ h. rest.1 h.1)
        ]

  glyphs_none :
      (o : Option Text)
      → (glyphs_of lib o ≡ none) ↔ (
          (o ≡ none)
          ⊎ ((content : Text) × (o ≡ some content)
              × ((lib.lower (strip content) =ₜ text "false") ≡ false)))
  glyphs_none none = (λ _. inl refl, λ _. refl)
  glyphs_none (some content) = elim (Bool-cases (lib.lower (strip content) =ₜ text "false")) [
    | inl e ↦ rw e (
      λ h. absurd (none_some (sym h)),
      λ h. elim h [
        | inl n ↦ absurd (none_some (sym n))
        | inr (c, same, fine) ↦ absurd (
            true-false
              (sym e ∙ ap (λ t. lib.lower (strip t) =ₜ text "false") (some_injective same) ∙ fine))
      ],
    )
    | inr e ↦ rw e (λ h. inr (content, refl, e), λ h. refl)
  ]

  pub fonts_none : (check_figure_glyphs_broken lib w ≡ none) ↔ FontsFine
  unfolding check_figure_glyphs_broken
  fonts_none = glyphs_none (lib.font_sentinel w)
