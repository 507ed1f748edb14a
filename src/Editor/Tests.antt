-- ===== src/Editor/Tests.antt =====
-- editor_tools/tools.py on concrete inputs.
use mathodology.Prelude.{
  ℕ, ◌≡◌, refl, Bool, true, false, none, some, List, [], ◌∷◌, ltb, ◌&&◌, arith,
}
use mathodology.Text.{text, strip, lstrip, rstrip, join, decimal}
use mathodology.Float.{cents}
use mathodology.Contracts.Artifacts.{
  ProblemInput, CompetitionType, ReasoningEffort, PaperDraft, Figure,
}
use mathodology.Pipeline.Paper.{
  substitute_from, substitute_figure_placeholders, render_paper_markdown, build_paper_meta,
}
use mathodology.Editor.Args.{Args, Value, ℤ}
use mathodology.Exec.{Result, ok, err}
use mathodology.Editor.Saving.{Stored}
use mathodology.Editor.Meta.{
  ToolContext, ToolResult, write_paper_artifacts, Source, Cell, find_section, section_titles,
  render_paper_md,
}
use mathodology.Editor.Sections.{read_paper, read_section, with_body, edit_section}
use mathodology.Editor.Sections.RoundTrip.{read_paper-edit_section}
use mathodology.Editor.Render.{stored}
use mathodology.Editor.Constant.{assigned, edit_constant, rerun_cells}
use mathodology.Editor.Registry.{Tool, execute}
use mathodology.Editor.Reach.Invariants.{Numbered, execute-Numbered}
use mathodology.Editor.Sample.{
  shown, unread, Place, sample_disk, sample_disk-Writes, full_disk, sample_meta, sample_context,
  sample_host, section_args,
}

abbrev edited_section : Result ToolResult × ToolContext Place
edited_section = edit_section shown sample_disk section_args sample_context

read_paper-edit_section_example :
    ((t : ToolResult)
      → edited_section.0 ≡ ok t
      → t.success ≡ true
      → ((read_paper shown section_args edited_section.1).0.detail ≡ some (text "we take x = 9"))
        × Stored sample_disk edited_section.1.paper_meta edited_section.1.world)
    × ((t : ToolResult)
        → edited_section.0 ≡ ok t
        → t.success ≡ false
        → edited_section.1 ≡ sample_context)
    × (section_titles edited_section.1.paper_meta ≡ section_titles sample_meta)
read_paper-edit_section_example =
    read_paper-edit_section sample_disk sample_disk-Writes shown section_args section_args
      sample_context (text "Model") (text "we take x = 9") refl refl refl

abbrev succeeded : Result ToolResult → Bool
succeeded (ok t) = t.success
succeeded (err e) = false

-- The edit of the example is not refused.
section_edited : succeeded edited_section.0 ≡ true
unfolding edit_section find_section write_paper_artifacts
section_edited = refl

-- A write that fails leaves the two files apart: the metadata is new, and paper.md is the old one.
files_apart :
    (succeeded (edit_section shown full_disk section_args sample_context).0 ≡ false)
    × ((edit_section shown full_disk section_args sample_context).1.world.0.paper_md
        ≡ some (render_paper_md sample_meta))
    × (read_section shown
        (edit_section shown full_disk section_args sample_context).1.paper_meta
        (text "Model")).detail
      ≡ some (text "we take x = 9")
unfolding edit_section find_section write_paper_artifacts with_body
files_apart = (refl, refl, refl)

abbrev sample_problem : ProblemInput
sample_problem = record {
  problem_text = text "?";
  competition_type = CompetitionType.mcm;
  attachments = [];
  model_override = none;
  reasoning_effort = ReasoningEffort.off;
  long_context = false;
  search_config = none;
}

abbrev sample_draft : PaperDraft
sample_draft = record {
  title = text "On x";
  abstract = text "a cost model";
  sections = record { title = text "Model"; body_markdown = text "x" } ∷ [];
  references = text "A book" ∷ [];
  figure_refs = [];
}

abbrev ascii_digit : ℕ → Bool
ascii_digit c = ltb 47 c && ltb c 58

abbrev no_figures : List (Figure ℕ)
no_figures = []

-- A paper with a figure: the tools write its placeholder where the pipeline wrote the image.
abbrev figure_draft : PaperDraft
figure_draft = record {
  title = text "T";
  abstract = [];
  sections = record { title = text "Fit"; body_markdown = text "[[FIG:fit]]" } ∷ [];
  references = [];
  figure_refs = [];
}

abbrev one_figure : List (Figure ℕ)
one_figure =
    record {
      id = text "fit";
      caption = text "A fit.";
      path_png = text "figures/fit.png";
      path_svg = none;
      width = 80;
    }
    ∷ []

placeholder_left :
    render_paper_md (stored (build_paper_meta sample_problem figure_draft one_figure))
    ≡ text "# T\n\n## Abstract\n\n\n\n## Fit\n\n[[FIG:fit]]\n"
unfolding render_paper_md stored join decimal
placeholder_left = refl

image_written :
    render_paper_markdown ascii_digit (substitute_figure_placeholders figure_draft one_figure)
    ≡ text "# T\n\n## Abstract\n\n\n\n## Fit\n\n\n\n![A fit.](figures/fit.png)\n\n\n"
unfolding render_paper_markdown substitute_from join decimal strip lstrip rstrip
image_written = refl

-- A paper whose references are all numbered is rendered by the two in different ways: the tools put
-- a second number in front.
abbrev numbered_draft : PaperDraft
numbered_draft = record {
  title = text "T";
  abstract = [];
  sections = [];
  references = text "[1] A book" ∷ [];
  figure_refs = [];
}

renumbered :
    render_paper_md (stored (build_paper_meta sample_problem numbered_draft no_figures))
    ≡ text "# T\n\n## Abstract\n\n\n\n## References\n\n1. [1] A book\n"
unfolding render_paper_md stored join decimal
renumbered = refl

kept_numbers :
    render_paper_markdown ascii_digit numbered_draft
    ≡ text "# T\n\n## Abstract\n\n\n\n## References\n\n[1] A book\n\n"
unfolding render_paper_markdown join decimal strip lstrip rstrip
kept_numbers = refl

abbrev run_args : Args
run_args = (text "code", Value.string (text "print(1)")) ∷ []

execute-Numbered_example :
    Numbered 2 (execute sample_host shown unread Tool.run_cell_tool run_args sample_context).1
execute-Numbered_example =
    execute-Numbered sample_host shown unread Tool.run_cell_tool run_args sample_context
      (record { below = (omega arith, (omega arith, tt)); at_least = omega arith })

-- A comparison at the start of a line is taken for an assignment to its left-hand side.
abbrev comparison : List Cell
comparison = Cell.code 1 (Source.whole (text "x == 3")) ∷ []

abbrev constant_args : Value → Args
constant_args from =
    (text "name", Value.string (text "x"))
    ∷ (text "value", Value.integer (ℤ.pos 5))
    ∷ (text "rerun_cells_from", from)
    ∷ []

comparison_patched :
    (edit_constant sample_host shown unread
      (constant_args Value.null)
      (record sample_context { cells = comparison })).1.cells
    ≡ Cell.code 1 (Source.whole (text "x = 5")) ∷ []
unfolding edit_constant assigned rerun_cells lstrip decimal
comparison_patched = refl

-- The answer to a call with a bad `rerun_cells_from` is an error, and the notebook has changed on disk.
refused_after_write :
    (edit_constant sample_host shown unread
      (constant_args (Value.string (text "two")))
      (record sample_context { cells = comparison })).1.world.0.notebook
    ≡ some (Cell.code 1 (Source.whole (text "x = 5")) ∷ [])
unfolding edit_constant assigned rerun_cells lstrip decimal
refused_after_write = refl
