-- ===== src/Coder/Tests.antt =====
-- agents/coder.py: a run in which the model is not understood at first, looks a skill up, declares a
-- figure twice and one that is not there, and forgets one that is.
use mathodology.Prelude.{
  ℕ, ◌+◌, ◌≡◌, refl, true, ◌||◌, none, some, List, [], ◌∷◌, ◌++◌, inl, inr, ◌==◌, if◌then◌else◌,
  length,
}
use mathodology.Text.{Text, text, ◌=ₜ◌}
use mathodology.Exec.{Result, ok, err, Exec}
use mathodology.Float.{cents}
use mathodology.Contracts.Artifacts.{CellExecution, CoderOutput}
use mathodology.Coder.{
  max_iterations, ask_coder, look_up, FigureMeta, python, matlab, CoderDirective, Tools, CoderState,
  ids,
}
use mathodology.Coder.Loop.{run_coder, try_run, iterations, register_all, recover_all}
use mathodology.Coder.Outcome.{fresh}

abbrev counted : {A : Type 0} → A → Exec ℕ A
counted x w = (ok x, w + 1)

abbrev reply : ℕ → Text
reply w =
    if w == 2
    then text "Sure!"
    else if w == 3
    then text "skill"
    else if w == 5
    then text "plot"
    else text "finish"

abbrev figure_meta : Text → FigureMeta ℕ
figure_meta id = record { id = id; caption = text "A fit."; width = 80 }

abbrev sample_directive : Text → CoderDirective ℕ
sample_directive t = record {
  reasoning = [];
  code = t;
  done = t =ₜ text "finish";
  summary = some (text "It fits.");
  figures_saved =
      figure_meta (text "fit") ∷ figure_meta (text "fit") ∷ figure_meta (text "lost") ∷ [];
  language = if t =ₜ text "finish" then matlab else python;
  skill_request = if t =ₜ text "skill" then some (text "plots") else none;
}

abbrev sample_cell : Text → ℕ → CellExecution
sample_cell source i = record {
  index = i;
  source = source;
  stdout = text "1.0";
  stderr = [];
  result_text = none;
  figure_paths = text "figures/fig-0.png" ∷ [];
  error = none;
  duration_ms = 7;
  language = text "python";
}

abbrev sample_tools : Tools ℕ ℕ
sample_tools = record {
  send = λ e. counted tt;
  complete = λ ms w. (ok (reply w), w + 1);
  parse_directive =
      λ t. if t =ₜ text "Sure!" then inl (text "not JSON") else inr (sample_directive t);
  dump = λ d. d.code;
  repr = λ t. text "'" ++ (t ++ text "'");
  kernel_start = counted tt;
  kernel_execute = λ source i. counted (sample_cell source i);
  kernel_shutdown = counted tt;
  write_notebook = λ cells. counted (text "/runs/r/notebook.ipynb");
  matlab_execute = none;
  get_skill = some (λ name. (true, text "Label the axes."));
  is_file = λ path w. path =ₜ text "figures/fit.png" || path =ₜ text "figures/fit.svg";
  pngs = λ w. text "fit" ∷ text "map" ∷ [];
}

abbrev sample_run : ℕ → Result (CoderOutput ℕ) × CoderState ℕ ℕ
sample_run max =
    run_coder sample_tools max (text "You write code.") (text "Fit it.") (fresh sample_tools 0)

abbrev seen : Result (CoderOutput ℕ) → List Text
seen (ok o) = o.final_summary ∷ o.figure_paths ++ ids o.figures
seen (err e) = []

two_cells : length (sample_run max_iterations).1.cells ≡ 2
unfolding run_coder try_run iterations ask_coder look_up register_all recover_all
two_cells = refl

all_seen :
    seen (sample_run max_iterations).0
    ≡ text "It fits."
      ∷ text "figures/fig-0.png"
      ∷ text "figures/fit.png"
      ∷ text "figures/map.png"
      ∷ text "fit"
      ∷ text "map"
      ∷ []
unfolding run_coder try_run iterations ask_coder look_up register_all recover_all
all_seen = refl

out_of_iterations :
    seen (sample_run 1).0
    ≡ text "Reached iteration limit without explicit done."
      ∷ text "figures/fig-0.png"
      ∷ text "figures/fit.png"
      ∷ text "figures/map.png"
      ∷ text "fit"
      ∷ text "map"
      ∷ []
unfolding run_coder try_run iterations ask_coder look_up register_all recover_all
out_of_iterations = refl
