-- ===== src/Pipeline/Paper/Tests.antt =====
-- Tests of the substitution of placeholders.
use mathodology.Prelude.{ℕ, ◌≡◌, refl, none, List, [], ◌∷◌, All}
use mathodology.Text.{Text, text}
use mathodology.Contracts.Artifacts.{Figure}
use mathodology.Audit.{embeds}
use mathodology.Pipeline.Paper.{image, substitute}
use mathodology.Pipeline.Paper.Embedding.{Piece, prose, placed, written, shown, substitute-written}
use mathodology.Pipeline.Paper.Audited.{
  IsStored, IsReadable, plain_text, known, files, embeds-substitute,
}

abbrev figure : Text → Figure ℕ
figure caption = record {
  id = text "cost_1";
  caption = caption;
  path_png = text "figures/cost_1.png";
  path_svg = none;
  width = 80;
}

abbrev figures : List (Figure ℕ)
figures = figure (text "Cost") ∷ []

-- The second placeholder names no figure.
abbrev pieces : List Piece
pieces = prose (text "See ") ∷ placed (text "cost_1") ∷ placed (text "load") ∷ prose (text "!") ∷ []

substitute-written_example : substitute figures (written pieces) ≡ shown figures pieces
substitute-written_example = substitute-written figures pieces (
  (refl, (refl, (refl, (refl, tt)))),
  (
    ((λ e. cc), (refl, (refl, (refl, (refl, (refl, (refl, tt))))))),
    (((λ e. cc), (refl, (refl, (refl, (refl, tt))))), ((refl, tt), tt)),
  ),
)

abbrev stored_cost : IsStored (figure (text "Cost"))
stored_cost = record {
  file = text "cost_1.png";
  path = refl;
  named = λ e. cc;
  no_paren = (refl, (refl, (refl, (refl, (refl, (refl, (refl, (refl, (refl, (refl, tt))))))))));
  no_bracket = (refl, (refl, (refl, (refl, tt))));
}

abbrev readable : List Piece
readable = prose (text "See ") ∷ placed (text "cost_1") ∷ []

abbrev readable-IsReadable : All (IsReadable figures) readable
readable-IsReadable = (
  plain_text (refl, (refl, (refl, (refl, tt)))),
  (known (figure (text "Cost")) refl stored_cost, tt),
)

embeds-substitute_example :
    embeds 0 (substitute figures (written readable)) ≡ files figures readable readable-IsReadable
embeds-substitute_example = embeds-substitute figures readable readable-IsReadable (
  (refl, (refl, (refl, (refl, tt)))),
  (((λ e. cc), (refl, (refl, (refl, (refl, (refl, (refl, tt))))))), tt),
)

-- A caption with a `]` hides its figure from the audit.
hidden_figure : embeds 0 (image (figure (text "Cost [RMB]"))) ≡ []
unfolding embeds
hidden_figure = refl
