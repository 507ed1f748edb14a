-- ===== src/Coder/Loop.antt =====
-- agents/coder.py: the execution loop of `CoderAgent.run` and what it makes of its cells.
use mathodology.Prelude.{
  ℕ, zero, suc, ◌+◌, Bool, false, ◌&&◌, Option, none, some, List, [], ◌∷◌, ◌++◌, ◌==◌,
  if◌then◌else◌,
}
use mathodology.Text.{Text, text, truthy, decimal}
use mathodology.Text.Replace.{replace}
use mathodology.Exec.{Result, ok, err, Exec, pure, ◌>>=◌, ◌>>◌}
use mathodology.Float.{Float}
use mathodology.Contracts.Artifacts.{CellExecution, CoderOutput}
use mathodology.Coder.{
  FigureMeta, Language, python, matlab, CoderDirective, Role, Message, Event, Tools, CoderState,
  skill_lookup_budget, member, ids, png_of, svg_of, all_figures, render_feedback, reach_out,
  send_event, ask_coder, look_up, said,
}

module _ {Num W : Type 0} ⦃fl : Float Num⦄ (tools : Tools Num W) where
  abbrev lang_name : Language → Text
  lang_name python = text "python"
  lang_name matlab = text "matlab"

  abbrev pub not_provisioned : Text → ℕ → CellExecution
  not_provisioned source i = record {
    index = i;
    source = source;
    stdout = [];
    stderr = [];
    result_text = none;
    figure_paths = [];
    error = some (
        text
          "MATLAB backend not provisioned for this run; switch to language='python' or install MATLAB/Octave.");
    duration_ms = 0;
    language = text "matlab";
  }

  abbrev pub in_matlab :
      Option (Text → ℕ → Exec W CellExecution) → Text → ℕ → Exec (CoderState Num W) CellExecution
  in_matlab none source i = pure (not_provisioned source i)
  in_matlab (some execute) source i =
      reach_out tools (execute source i) >>= λ c. pure (record c { language = text "matlab" })

  abbrev pub execute_in : Language → Text → ℕ → Exec (CoderState Num W) CellExecution
  execute_in matlab source i = in_matlab tools.matlab_execute source i
  execute_in python source i = reach_out tools (tools.kernel_execute source i) >>= λ c.
      pure (record c { language = text "python" })

  -- `cells.append(cell)`
  abbrev pub append_cell : CellExecution → Exec (CoderState Num W) CellExecution
  append_cell c s = (ok c, record s { cells = s.cells ++ c ∷ [] })

  abbrev pub executing : CoderDirective Num → ℕ → Event Num
  executing d i =
      Event.log (text "info")
        (text "executing cell " ++ (decimal i ++ (text " [" ++ (lang_name d.language ++ text "]"))))

  -- One cell.
  abbrev pub execute_cell : CoderDirective Num → ℕ → Exec (CoderState Num W) CellExecution
  execute_cell d i = do
    send_event tools (executing d i)
    c ← execute_in d.language d.code i
    append_cell c

  -- A figure whose PNG is on disk.
  abbrev pub add_figure : Text → Text → Num → Exec (CoderState Num W) (Unit {0})
  add_figure id caption width s = (
    ok tt,
    record s {
      figures =
          s.figures
          ++ record {
            id = id;
            caption = caption;
            path_png = png_of id;
            path_svg = if tools.is_file (svg_of id) s.world then some (svg_of id) else none;
            width = width;
          }
            ∷ [];
    },
  )

  -- One declared figure.
  abbrev pub register : FigureMeta Num → Exec (CoderState Num W) (Unit {0})
  register fm s =
      if member fm.id (ids s.figures)
      then pure tt s
      else if tools.is_file (png_of fm.id) s.world
      then add_figure fm.id fm.caption fm.width s
      else send_event tools
          (Event.log (text "warn") (
            text "figure "
            ++ (tools.repr fm.id
                ++ (text " declared but PNG not found at "
                    ++ (png_of fm.id ++ text "; skipping")))))
          s

  unfoldable pub register_all : List (FigureMeta Num) → Exec (CoderState Num W) (Unit {0})
  register_all [] = pure tt
  register_all (fm ∷ fms) = register fm >> register_all fms

  -- One PNG on disk that no directive declared.
  abbrev pub recover_figure : Text → Exec (CoderState Num W) (Unit {0})
  recover_figure id s =
      if member id (ids s.figures)
      then pure tt s
      else (add_figure id
              (text "Auto-discovered figure: " ++ (replace (text "_") (text " ") id ++ text "."))
              (fl.hundredths 80)
            >> send_event tools (
                Event.log (text "info")
                  (text "auto-recovered undeclared figure " ++ tools.repr id)))
          s

  unfoldable pub recover_all : List Text → Exec (CoderState Num W) (Unit {0})
  recover_all [] = pure tt
  recover_all (id ∷ rest) = recover_figure id >> recover_all rest

  abbrev failed_cell : Option Text → Bool
  failed_cell none = false
  failed_cell (some e) = truthy e

  abbrev summary_or : Option Text → Text
  summary_or none = text "(no summary provided)"
  summary_or (some t) = if truthy t then t else text "(no summary provided)"

  abbrev error_text : Option Text → Text
  error_text none = []
  error_text (some e) = e

  -- The summary that ends the loop after a cell, if it does: the model is done, or the last cell failed.
  abbrev pub ending : ℕ → ℕ → CoderDirective Num → CellExecution → Option Text
  ending max i d c =
      if d.done
      then some (summary_or d.summary)
      else if failed_cell c.error && i + 1 == max
      then some (
          text "Coder failed after " ++ (decimal max ++ (text " attempts: " ++ error_text c.error)))
      else none

  abbrev pub one_cell : ℕ → CoderDirective Num → Exec (CoderState Num W) CellExecution
  one_cell i d = do c ← execute_cell d i; register_all d.figures_saved; pure c

  -- The outer loop at iteration `i`, with the iterations left.
  unfoldable pub iterations : ℕ → ℕ → ℕ → List Message → Exec (CoderState Num W) (Option Text)
  iterations max zero i messages = pure none
  iterations max (suc n) i messages =
      (ask_coder tools 2 [] messages >>= λ d. look_up tools skill_lookup_budget d messages) >>= λ p.
      one_cell i p.0 >>= λ c. elim (ending max i p.0 c) [
        | some summary ↦ pure (some summary)
        | none ↦ iterations max n (i + 1) (
            p.1
            ++ said tools Role.assistant (tools.dump p.0)
              ∷ said tools Role.user (render_feedback tools.repr c)
              ∷ [])
      ]

  abbrev pub final_summary : Option Text → Text
  final_summary (some t) = t
  final_summary none = text "Reached iteration limit without explicit done."

  abbrev pub write_cells : Exec (CoderState Num W) Text
  write_cells s = reach_out tools (tools.write_notebook s.cells) s

  abbrev pub recover_undeclared : Exec (CoderState Num W) (Unit {0})
  recover_undeclared s = recover_all (tools.pngs s.world) s

  abbrev pub output_of : Text → Text → CoderState Num W → CoderOutput Num
  output_of summary path s = record {
    cells = s.cells;
    figures = s.figures;
    figure_paths = all_figures s.cells s.figures;
    final_summary = summary;
    notebook_path = path;
  }

  abbrev pub announce_with : CoderOutput Num → Exec (CoderState Num W) (CoderOutput Num)
  announce_with output = do
    send_event tools (Event.agent_output output)
    send_event tools Event.stage_done
    pure output

  abbrev pub conclude_run : Text → Text → Exec (CoderState Num W) (CoderOutput Num)
  conclude_run summary path s = announce_with (output_of summary path s) s

  abbrev pub wrap_up : Option Text → Exec (CoderState Num W) (CoderOutput Num)
  wrap_up o = do path ← write_cells; recover_undeclared; conclude_run (final_summary o) path

  -- `finally: await self.kernel.shutdown()`
  abbrev pub after_shutdown :
      {A : Type 0} → Result A → Result (Unit {0}) × CoderState Num W → Result A × CoderState Num W
  after_shutdown r (ok u, s) = (r, s)
  after_shutdown r (err e, s) = (err e, s)

  abbrev pub finally_shutdown : {A : Type 0} → Exec (CoderState Num W) A → Exec (CoderState Num W) A
  finally_shutdown m s =
      let (r, s') = m s in after_shutdown r (reach_out tools tools.kernel_shutdown s')

  -- The `try` of `run`.
  unfoldable pub try_run : ℕ → List Message → Exec (CoderState Num W) (CoderOutput Num)
  try_run max messages = finally_shutdown (iterations max max 0 messages >>= wrap_up)

  abbrev pub no_cells : Exec (CoderState Num W) (Unit {0})
  no_cells s = (ok tt, record s { cells = []; figures = [] })

  -- `run`, on the prompt and the task.
  unfoldable pub run_coder : ℕ → Text → Text → Exec (CoderState Num W) (CoderOutput Num)
  run_coder max prompt task = do
    send_event tools Event.stage_start
    reach_out tools tools.kernel_start
    no_cells
    try_run max (said tools Role.system prompt ∷ said tools Role.user task ∷ [])
