-- ===== src/Pipeline/Run/Tests.antt =====
-- Tests of `run_pipeline` on agents that answer at once.
use mathodology.Prelude.{ℕ, ◌+◌, refl, true, false, none, [], ◌∷◌, ◌++◌}
use mathodology.Text.{text}
use mathodology.Exec.{other, ok, err, Exec}
use mathodology.Float.{cents}
use mathodology.Contracts.{CritiqueReport, Stage, minor}
use mathodology.Contracts.Artifacts.{
  CompetitionType, ReasoningEffort, ProblemInput, AnalyzerOutput, ModelSpec, CoderOutput,
  PaperDraft,
}
use mathodology.Events.{emit}
use mathodology.Audit.{Library}
use mathodology.Pipeline.State.{emit_event}
use mathodology.Pipeline.Review.Tests.{services, start, verdict}
use mathodology.Pipeline.Run.{Agents, Host, run_pipeline}
use mathodology.Pipeline.Run.Progress.{Finished}
use mathodology.Pipeline.Run.Terminal.{PlainErrors, run_pipeline-Finished}

abbrev problem : ProblemInput
problem = record {
  problem_text = text "Plan the chargers.";
  competition_type = CompetitionType.mcm;
  attachments = [];
  model_override = none;
  reasoning_effort = ReasoningEffort.high;
  long_context = true;
  search_config = none;
}

abbrev pub analysis : AnalyzerOutput
analysis = record {
  restated_problem = text "Plan the chargers of a city.";
  sub_questions = text "Q1: How many chargers?" ∷ [];
  assumptions = [];
  data_requirements = [];
  proposed_approaches = [];
}

abbrev spec : ModelSpec
spec = record {
  chosen_approach = text "queue";
  rationale = [];
  variables = [];
  equations = [];
  algorithm_outline = [];
  complexity_notes = none;
  validation_strategy = [];
  consulted_methods = [];
}

abbrev pub coder_out : CoderOutput ℕ
coder_out = record {
  cells = [];
  figures = [];
  figure_paths = [];
  final_summary = text "12";
  notebook_path = text "/runs/r/notebook.ipynb";
}

abbrev pub paper : PaperDraft
paper = record {
  title = text "Chargers";
  abstract = text "We plan 12.";
  sections = [];
  references = [];
  figure_refs = [];
}

abbrev fine : {A : Type 0} → Stage → A → ℕ → ℕ → Exec ℕ (CritiqueReport ℕ)
fine target a round last w = (ok (verdict target minor), w + 14)

abbrev same_again : {A : Type 0} → A → CritiqueReport ℕ → Exec ℕ A
same_again a report w = (ok a, w + 30)

abbrev agents : Agents ℕ ℕ (Unit {0})
agents = record {
  analyze = λ p w. (ok analysis, w + 1);
  search = λ p a r w. (ok tt, w + 1);
  model = λ p a r w. (ok spec, w + 1);
  code = λ p a s r w. (ok coder_out, w + 1);
  write = λ p a s c f r w. (ok paper, w + 1);
  review_analysis = λ p. fine;
  revise_analysis = λ p. same_again;
  review_findings = λ p a. fine;
  revise_findings = λ p a. same_again;
  review_spec = λ p a. fine;
  revise_spec = λ p a. same_again;
  review_code = λ p a s. fine;
  rerun_code = λ p a s. same_again;
  review_paper = λ p a s c f d. fine;
  revise_paper = λ p a s c f d. same_again;
  revise_audited = λ p a s c f. same_again;
  scan = λ d. none;
}

abbrev pub library : Library ℕ
library = record { lower = λ t. t; is_digit = λ c. false; stem = λ t. t; font_sentinel = λ w. none }

abbrev host : Host ℕ ℕ
host = record {
  lib = library;
  duration_ms = λ w w'. 0;
  write_text = λ path t w. (ok tt, w);
  write_bytes = λ path t w. (ok tt, w);
  dump_meta = λ meta. [];
  export_paper = λ w. (err (other (text "ConnectError") (text "refused")), w);
  auto_export_pdf = true;
  is_io_error = λ e. true;
  path_in_run = λ name. text "/runs/r/" ++ name;
  close_gateway = λ w. w;
}

plain : PlainErrors services
unfolding emit_event emit
plain kind payload agent s e h = cc

run_pipeline-Finished_example : Finished (run_pipeline services host agents problem start)
run_pipeline-Finished_example = run_pipeline-Finished services plain host agents problem start refl
