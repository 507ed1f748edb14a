-- ===== src/Pipeline/AuditGate.antt =====
-- pipeline.py: `_run_audit_and_maybe_revise`. The Writer's revision is an argument, as there, and so
-- is the time between two states of the world.
pub mod Quiet
pub mod Outcome
pub mod Tests
use mathodology.Prelude.{
  ℕ, Bool, true, false, Option, none, some, List, [], ◌∷◌, ◌++◌, leb, if◌then◌else◌, length, map,
}
use mathodology.Text.{Text, text, decimal}
use mathodology.Exec.{
  Error, is_agent_error, message, Result, ok, err, Exec, pure, raise, gets, ◌>>=◌, ◌>>◌,
}
use mathodology.Float.{Float}
use mathodology.Contracts.{Stage, Severity, CritiqueFinding, CritiqueReport}
use mathodology.Contracts.Artifacts.{AnalyzerOutput, CoderOutput, PaperDraft}
use mathodology.Events.{AgentName, audit, EventKind, Payload, Value}
use mathodology.Audit.{
  DispatchTarget, AuditSeverity, AuditFinding, AuditReport, Library, passed, blocking_for, blocks,
  merged_hint_for, run_paper_audit,
}
use mathodology.Pipeline.State.{RunState, Services, bounced, ask, emit_event, total, poll}
use mathodology.Pipeline.Paper.{substitute_figure_placeholders, render_paper_markdown}

abbrev finding_payload : AuditFinding → Payload
finding_payload f =
    (text "level", Value.str (if blocks f then text "warning" else text "info"))
    ∷ (text "message", Value.str (text "audit/" ++ f.code ++ text ": " ++ f.message))
    ∷ []

abbrev leveled : Text → Text → Payload
leveled level m = (text "level", Value.str level) ∷ (text "message", Value.str m) ∷ []

abbrev critique_of : AuditFinding → CritiqueFinding
critique_of f = record {
  severity = Severity.blocking;
  area = text "audit";
  message = f.message;
  evidence = text "audit/" ++ f.code ++ text ": see paper.md and run dir";
  required_change = f.fix_hint;
}

-- The report that the Writer is given.
pub fake_critique : {Num : Type 0} ⦃fl : Float Num⦄ → AuditReport → CritiqueReport Num
fake_critique ⦃fl⦄ report = record {
  target_agent = Stage.writer;
  target_schema = text "PaperDraft";
  passed = false;
  score = fl.hundredths 0;
  summary = merged_hint_for DispatchTarget.writer report;
  findings = map critique_of (blocking_for DispatchTarget.writer report);
  required_changes = map (λ f. f.fix_hint) (blocking_for DispatchTarget.writer report);
  roles = [];
  checklist = [];
  revision_round = 0;
  max_revision_rounds = 0;
  budget_exhausted = false;
}

-- The Writer, the Coder's and the Analyzer's output, and the tracker, if one is given.
pub record Gate (Num W : Type 0) : Type 0 where
  pub lib : Library W
  pub revise : PaperDraft → CritiqueReport Num → Exec W PaperDraft
  pub coder_out : CoderOutput Num
  pub analysis : AnalyzerOutput
  pub tracked : Bool
  pub duration_ms : W → W → ℕ

module _ {Num W : Type 0} ⦃fl : Float Num⦄ (sv : Services Num W) (g : Gate Num W) where
  abbrev pub markdown_of : PaperDraft → Text
  markdown_of paper =
      render_paper_markdown g.lib.is_digit
        (substitute_figure_placeholders paper g.coder_out.figures)

  abbrev pub audit_of : PaperDraft → W → AuditReport
  audit_of paper w = run_paper_audit g.lib paper (markdown_of paper) g.coder_out g.analysis w

  pub surface : List AuditFinding → Exec (RunState Num W) (Unit {0})
  surface [] = pure tt
  surface (f ∷ fs) = emit_event sv EventKind.log (finding_payload f) (some audit) >> surface fs

  abbrev pub refresh_total : Exec (RunState Num W) (Unit {0})
  refresh_total = if g.tracked then (total sv >> pure tt) else pure tt

  -- `run_paper_audit` on the rendered paper
  pub audit_now : PaperDraft → Exec (RunState Num W) AuditReport
  audit_now paper s = (ok (audit_of paper s.world), s)

  pub log_second : AuditReport → AuditReport → Exec (RunState Num W) (Unit {0})
  log_second report second =
      emit_event sv EventKind.log
        (leveled
          (if leb (length second.findings) (length report.findings)
            then text "info"
            else text "warning")
          (text "audit second pass: "
            ++ decimal (length second.findings)
            ++ text " finding(s) remaining (was "
            ++ decimal (length report.findings)
            ++ text ")"))
        (some audit)

  -- What follows the attempt: the original paper if it failed, else a second audit, for the log.
  pub after_bounce : PaperDraft → AuditReport → Result PaperDraft → Exec (RunState Num W) PaperDraft
  after_bounce paper report (err e) =
      if is_agent_error e
      then (emit_event sv EventKind.log
            (leveled (text "warning")
              (text "audit revision attempt failed; shipping original paper: " ++ message e))
            (some audit)
          >> pure paper)
      else raise e
  after_bounce paper report (ok revision) = do
    refresh_total
    second ← audit_now revision
    log_second report second
    pure revision

  pub bounce : PaperDraft → AuditReport → Exec (RunState Num W) PaperDraft
  bounce paper report s =
      let (r, s') = ask bounced (g.revise paper (fake_critique report)) s in
      after_bounce paper report r s'

  -- The part behind the first audit.
  pub dispatch : PaperDraft → AuditReport → List AuditFinding → Exec (RunState Num W) PaperDraft
  dispatch paper report [] = pure paper
  dispatch paper report (f ∷ fs) = do
    poll sv
    emit_event sv EventKind.log
        (leveled (text "info") (
          text "audit bouncing back to writer for "
          ++ decimal (length (f ∷ fs))
          ++ text " blocking finding(s)"))
        (some audit)
    bounce paper report

  abbrev pub stage_done_payload : AuditReport → ℕ → Payload
  stage_done_payload report ms =
      (text "stage", Value.str (text "audit"))
      ∷ (text "duration_ms", Value.int ms)
      ∷ (text "passed", Value.bool (passed report))
      ∷ (text "finding_count", Value.int (length report.findings))
      ∷ []

  pub log_stage_done : AuditReport → ℕ → Exec (RunState Num W) (Unit {0})
  log_stage_done report ms =
      emit_event sv EventKind.stage_done (stage_done_payload report ms) (some audit)

  pub world_now : Exec (RunState Num W) W
  world_now s = (ok s.world, s)

  -- The first audit, and its events.
  pub first_audit : PaperDraft → Exec (RunState Num W) AuditReport
  first_audit paper = do
    emit_event sv EventKind.stage_start ((text "stage", Value.str (text "audit")) ∷ []) (some audit)
    t0 ← world_now
    report ← audit_now paper
    surface report.findings
    t1 ← world_now
    log_stage_done report (g.duration_ms t0 t1)
    pure report

  -- `_run_audit_and_maybe_revise`
  pub run_audit_and_maybe_revise : PaperDraft → Exec (RunState Num W) PaperDraft
  run_audit_and_maybe_revise paper = do
    report ← first_audit paper
    if passed report
        then pure paper
        else dispatch paper report (blocking_for DispatchTarget.writer report)
