-- ===== src/Pipeline/Paper.antt =====
-- pipeline.py: the paper as it is written to disk: `_substitute_figure_placeholders`,
-- `_build_paper_meta` and `_render_paper_markdown`.
pub mod Embedding
pub mod Audited
pub mod Tests
use mathodology.Prelude.{
  ℕ, zero, suc, ◌+◌, Bool, true, false, ◌&&◌, ◌||◌, Option, none, some, List, [], ◌∷◌, ◌++◌, leb,
  ◌==◌, if◌then◌else◌, length, keep, all, map,
}
use mathodology.Text.{Text, text, ◌=ₜ◌, truthy, strip, lstrip, join, newline, decimal}
use mathodology.Text.Match.{after_prefix, span}
use mathodology.Contracts.Artifacts.{
  CompetitionType, ProblemInput, Figure, PaperSection, PaperDraft,
}

-- `[a-z0-9_]`
abbrev pub is_slug : ℕ → Bool
is_slug c = (leb 97 c && leb c 122) || (leb 48 c && leb c 57) || c == 95

abbrev pub opening : Text
opening = text "[[FIG:"

abbrev pub closing : Text
closing = text "]]"

abbrev pub closed : Text × Text → Option Text
closed ([], rest) = none
closed (c ∷ id, rest) = elim (after_prefix closing rest) [ none ↦ none | some _ ↦ some (c ∷ id) ]

abbrev pub id_of : Option Text → Option Text
id_of none = none
id_of (some t) = closed (span is_slug t)

-- The id of the placeholder that the text begins with.
abbrev pub placeholder_at : Text → Option Text
placeholder_at t = id_of (after_prefix opening t)

module _ {Num : Type 0} where
  -- `by_id.get(id)`: the last figure of that id.
  abbrev pub by_id : List (Figure Num) → Text → Option (Figure Num)
  by_id [] id = none
  by_id (f ∷ fs) id =
      let later = by_id fs id in
      elim later [ some g ↦ some g | none ↦ if f.id =ₜ id then some f else none ]

  abbrev pub image : Figure Num → Text
  image f =
      newline
      ∷ newline
      ∷ (text "!["
          ++ (f.caption ++ (text "](" ++ (f.path_png ++ (text ")" ++ newline ∷ newline ∷ [])))))

  -- `_repl`
  abbrev pub repl : Option (Figure Num) → Text
  repl none = []
  repl (some f) = image f

  -- `_FIG_PLACEHOLDER_RE.sub(_repl, t)`, with the characters of a match that are still to be skipped.
  unfoldable pub substitute_from : List (Figure Num) → ℕ → Text → Text
  substitute_from figures skip [] = []
  substitute_from figures (suc k) (c ∷ t) = substitute_from figures k t
  substitute_from figures zero (c ∷ t) = elim (placeholder_at (c ∷ t)) [
    | none ↦ c ∷ substitute_from figures zero t
    | some id ↦ repl (by_id figures id) ++ substitute_from figures (length id + 7) t
  ]

  abbrev pub substitute : List (Figure Num) → Text → Text
  substitute figures t = substitute_from figures 0 t

  abbrev pub substitute_section : List (Figure Num) → PaperSection → PaperSection
  substitute_section figures s = record {
    title = s.title;
    body_markdown = substitute figures s.body_markdown;
  }

  -- `_substitute_figure_placeholders`
  abbrev pub substitute_figure_placeholders : PaperDraft → List (Figure Num) → PaperDraft
  substitute_figure_placeholders paper figures = record paper {
    sections = map (substitute_section figures) paper.sections;
  }

-- The payload of the exporter.
pub record PaperMeta (Num : Type 0) : Type 0 where
  pub title : Text
  pub abstract : Text
  pub competition_type : CompetitionType
  pub problem_text : Text
  pub sections : List PaperSection
  pub references : List Text
  pub figures : List (Figure Num)

-- `_build_paper_meta`
abbrev pub build_paper_meta :
    {Num : Type 0} → ProblemInput → PaperDraft → List (Figure Num) → PaperMeta Num
build_paper_meta problem paper figures = record {
  title = paper.title;
  abstract = paper.abstract;
  competition_type = problem.competition_type;
  problem_text = problem.problem_text;
  sections = paper.sections;
  references = paper.references;
  figures = figures;
}

-- The parts of the document that the sections add.
abbrev pub section_parts : List PaperSection → List Text
section_parts [] = []
section_parts (s ∷ rest) = [] ∷ (text "## " ++ s.title) ∷ [] ∷ s.body_markdown ∷ section_parts rest

-- `_REF_PREFIX_RE.match(ref)`, where `is_digit` tells the decimal digits of Unicode.
abbrev pub numbered : (ℕ → Bool) → Text × Text → Bool
numbered is_digit ([], rest) = false
numbered is_digit (d ∷ ds, []) = false
numbered is_digit (d ∷ ds, c ∷ rest) = c == 93

abbrev pub has_prefix : (ℕ → Bool) → Text → Bool
has_prefix is_digit ref = elim (after_prefix (text "[") (lstrip ref)) [
  | none ↦ false
  | some rest ↦ numbered is_digit (span is_digit rest)
]

-- The lines of the references, from number `i` on.
abbrev pub reference_parts : Bool → ℕ → List Text → List Text
reference_parts bracketed i [] = []
reference_parts bracketed i (ref ∷ refs) =
    let rest = reference_parts bracketed (i + 1) refs in
    if bracketed then ref ∷ [] ∷ rest else (decimal i ++ text ". " ++ ref) ∷ rest

abbrev pub references_parts : (ℕ → Bool) → List Text → List Text
references_parts is_digit [] = []
references_parts is_digit (ref ∷ refs) =
    []
    ∷ text "## References"
    ∷ []
    ∷ reference_parts (all (has_prefix is_digit) (keep (λ r. truthy (strip r)) (ref ∷ refs))) 1
        (ref ∷ refs)

-- `_render_paper_markdown`
unfoldable pub render_paper_markdown : (ℕ → Bool) → PaperDraft → Text
render_paper_markdown is_digit paper =
    join (newline ∷ []) (
      (text "# " ++ paper.title)
      ∷ []
      ∷ text "## Abstract"
      ∷ []
      ∷ paper.abstract
      ∷ (section_parts paper.sections ++ references_parts is_digit paper.references))
    ++ newline ∷ []
