-- ===== src/Pipeline/Run/Quiet.antt =====
-- pipeline.py: what follows the Writer runs no agent of the order, and ends no run but by `announce`.
use mathodology.Prelude.{ℕ, refl, Option, none, some, List}
use mathodology.Exec.{Error}
use mathodology.Float.{Float}
use mathodology.Text.{text}
use mathodology.Contracts.Artifacts.{PaperDraft, ProblemInput, CoderOutput}
use mathodology.Events.{log, Payload}
use mathodology.Pipeline.State.{Services}
use mathodology.Pipeline.Paper.{
  build_paper_meta, substitute_figure_placeholders, render_paper_markdown,
}
use mathodology.Pipeline.Run.{
  Host, is_pdf, save_pdf, try_export, export_failed, auto_export, publish, log_scan,
}
use mathodology.Pipeline.Quiet.{
  Quiet, Quiet-pure, Quiet-if, Quiet-bind, Quiet-try, emit-Quiet, wrote-Quiet, exported-Quiet,
}

module _ {Num W : Type 0} ⦃fl : Float Num⦄ (sv : Services Num W) (h : Host Num W) where
  pub log_scan-Quiet : (o : Option Payload) → Quiet (log_scan sv o)
  log_scan-Quiet none = Quiet-pure tt
  log_scan-Quiet (some p) = emit-Quiet sv log p _ refl

  save_pdf-Quiet : (bytes : List ℕ) → Quiet (save_pdf sv h bytes)
  unfolding save_pdf
  save_pdf-Quiet bytes =
      Quiet-if (is_pdf sv h bytes)
        (Quiet-bind _
          (wrote-Quiet (text "paper.pdf") (h.write_bytes (h.path_in_run (text "paper.pdf")) bytes))
          λ t. Quiet-bind _ (emit-Quiet sv log _ _ refl) λ u. Quiet-pure _)
        (Quiet-bind _ (emit-Quiet sv log _ _ refl) λ t. Quiet-pure none)

  try_export-Quiet : Quiet (try_export sv h)
  unfolding try_export
  try_export-Quiet =
      Quiet-bind _ (emit-Quiet sv log _ _ refl)
        λ t. Quiet-bind _ (exported-Quiet h.export_paper) save_pdf-Quiet

  export_failed-Quiet : (e : Error) → Quiet (export_failed sv h e)
  unfolding export_failed
  export_failed-Quiet e =
      Quiet-if (h.is_io_error e) (Quiet-bind _ (emit-Quiet sv log _ _ refl) λ t. Quiet-pure none)
        (record { keeps = λ s. refl })

  pub auto_export-Quiet : Quiet (auto_export sv h)
  unfolding auto_export
  auto_export-Quiet =
      Quiet-if h.auto_export_pdf (Quiet-try _ try_export-Quiet export_failed-Quiet)
        (Quiet-pure none)

  pub publish-Quiet :
      (problem : ProblemInput) (coder_out : CoderOutput Num) (paper : PaperDraft)
      → Quiet (publish sv h problem coder_out paper)
  unfolding publish
  publish-Quiet problem coder_out paper =
      Quiet-bind _
        (wrote-Quiet (text "paper.md") (
          h.write_text (h.path_in_run (text "paper.md")) (
            render_paper_markdown h.lib.is_digit
              (substitute_figure_placeholders paper coder_out.figures))))
        λ t.
          Quiet-bind _
            (wrote-Quiet (text "paper.meta.json") (
              h.write_text (h.path_in_run (text "paper.meta.json"))
                (h.dump_meta (build_paper_meta problem paper coder_out.figures))))
            λ u. auto_export-Quiet
