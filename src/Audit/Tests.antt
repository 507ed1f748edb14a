-- ===== src/Audit/Tests.antt =====
-- Tests of audit.py on a paper with one figure embedded and one left out.
use mathodology.Prelude.{ℕ, ◌≡◌, false, not, none, some, [], ◌∷◌, ◌++◌, ◌==◌}
use mathodology.Text.{Text, text}
use mathodology.Text.Match.{span}
use mathodology.Contracts.Artifacts.{AnalyzerOutput, CoderOutput, Figure, PaperDraft}
use mathodology.Audit.{
  coder, writer, Library, blocking_for, check_reference_count, check_figure_orphans,
  check_subquestion_coverage, check_figure_glyphs_broken, found, run_paper_audit,
}
use mathodology.Audit.Report.{blocking_for-run_paper_audit}

-- The stem ends at the dot, nothing is lowered, and the fonts are broken.
abbrev library : Library (Unit {0})
library = record {
  lower = λ t. t;
  is_digit = λ c. false;
  stem = λ p. (span (λ c. not (c == 46)) p).0;
  font_sentinel = λ w. some (text "false");
}

abbrev figure : Text → Figure ℕ
figure id = record {
  id = id;
  caption = text "cost";
  path_png = text "figures/" ++ id ++ text ".png";
  path_svg = none;
  width = 80;
}

abbrev coder_out : CoderOutput ℕ
coder_out = record {
  cells = [];
  figures = figure (text "cost") ∷ figure (text "load") ∷ [];
  figure_paths = [];
  final_summary = [];
  notebook_path = [];
}

abbrev analysis : AnalyzerOutput
analysis = record {
  restated_problem = text "Plan the chargers.";
  sub_questions = text "Q1: How many chargers?" ∷ [];
  assumptions = [];
  data_requirements = [];
  proposed_approaches = [];
}

abbrev paper : PaperDraft
paper = record {
  title = text "Chargers";
  abstract = text "We plan 12.";
  sections = [];
  references = text "[1] A" ∷ [];
  figure_refs = [];
}

abbrev paper_md : Text
paper_md = text "# Chargers ![cost](figures/cost.png)"

blocking_for-run_paper_audit_example :
    (blocking_for writer (run_paper_audit library paper paper_md coder_out analysis tt)
      ≡ found (check_reference_count paper)
        ++ (found (check_figure_orphans library coder_out paper_md)
            ++ (found (check_subquestion_coverage library analysis paper_md) ++ [])))
    × (blocking_for coder (run_paper_audit library paper paper_md coder_out analysis tt)
        ≡ found (check_figure_glyphs_broken library tt))
blocking_for-run_paper_audit_example =
    blocking_for-run_paper_audit library paper paper_md coder_out analysis tt
