-- ===== src/Pipeline/Run.antt =====
-- pipeline.py: `run_pipeline` and `_auto_export_pdf`. The agents are arguments: what they say to the
-- models is not modelled, nor is what precedes the `try` (settings, the run's directory, sessions).
-- `Findings` is the type of the Searcher's output.
pub mod Quiet
pub mod Progress
pub mod Terminal
pub mod Tests
use mathodology.Prelude.{
  ℕ, Bool, true, false, not, ◌||◌, Option, none, some, List, [], ◌∷◌, ◌++◌, if◌then◌else◌, length,
}
use mathodology.Text.{Text, text, decimal}
use mathodology.Text.Match.{after_prefix, is_some}
use mathodology.Exec.{
  Error, agent_error, agent_parse_error, run_cancelled, other, message, Result, ok, err, Exec, pure,
  raise, gets, modify, ◌>>=◌, ◌>>◌, try_except,
}
use mathodology.Float.{Float}
use mathodology.Contracts.{Stage, analyzer, searcher, modeler, coder, writer, CritiqueReport}
use mathodology.Contracts.Artifacts.{
  ProblemInput, AnalyzerOutput, ModelSpec, CoderOutput, PaperDraft,
}
use mathodology.Events.{AgentName, EventKind, Payload, Value}
use mathodology.CostTracker
use mathodology.Audit.{Library}
use mathodology.Pipeline.Policy.{CriticPolicy, default_critic_policy}
use mathodology.Pipeline.State.{
  RunState, Services, Call, ran, wrote, exported, ask, emit_event, poll, get_reminder,
}
use mathodology.Pipeline.Review.{Loop, or_default, review_and_maybe_revise}
use mathodology.Pipeline.Rerun.{review_and_maybe_rerun_coder}
use mathodology.Pipeline.Paper.{
  PaperMeta, build_paper_meta, substitute_figure_placeholders, render_paper_markdown,
}
use mathodology.Pipeline.AuditGate.{Gate, run_audit_and_maybe_revise}

-- The Critic's review of one kind of artifact.
abbrev pub Review : Type 0 → Type 0 → Type 0 → Type 0
Review Num W A = Stage → A → ℕ → ℕ → Exec W (CritiqueReport Num)

-- A producer's revision of its artifact.
abbrev pub Revise : Type 0 → Type 0 → Type 0 → Type 0
Revise Num W A = A → CritiqueReport Num → Exec W A

-- The five agents and the Critic, each given what the pipeline passes to it; a text is the reminder.
pub record Agents (Num W Findings : Type 0) : Type 0 where
  pub analyze : ProblemInput → Exec W AnalyzerOutput
  pub search : ProblemInput → AnalyzerOutput → Text → Exec W Findings
  pub model : ProblemInput → AnalyzerOutput → Text → Exec W ModelSpec
  pub code : ProblemInput → AnalyzerOutput → ModelSpec → Text → Exec W (CoderOutput Num)
  pub write :
      ProblemInput
      → AnalyzerOutput
      → ModelSpec
      → CoderOutput Num
      → Findings
      → Text
      → Exec W PaperDraft
  pub review_analysis : ProblemInput → Review Num W AnalyzerOutput
  pub revise_analysis : ProblemInput → Revise Num W AnalyzerOutput
  pub review_findings : ProblemInput → AnalyzerOutput → Review Num W Findings
  pub revise_findings : ProblemInput → AnalyzerOutput → Revise Num W Findings
  pub review_spec : ProblemInput → AnalyzerOutput → Review Num W ModelSpec
  pub revise_spec : ProblemInput → AnalyzerOutput → Revise Num W ModelSpec
  pub review_code : ProblemInput → AnalyzerOutput → ModelSpec → Review Num W (CoderOutput Num)
  pub rerun_code : ProblemInput → AnalyzerOutput → ModelSpec → Revise Num W (CoderOutput Num)
  pub review_paper :
      ProblemInput
      → AnalyzerOutput
      → ModelSpec
      → CoderOutput Num
      → Findings
      → PaperDraft
      → Review Num W PaperDraft
  pub revise_paper :
      ProblemInput
      → AnalyzerOutput
      → ModelSpec
      → CoderOutput Num
      → Findings
      → PaperDraft
      → Revise Num W PaperDraft
  -- the revision that the audit asks for, whose context has no scan of the paper
  pub revise_audited :
      ProblemInput
      → AnalyzerOutput
      → ModelSpec
      → CoderOutput Num
      → Findings
      → Revise Num W PaperDraft
  -- the log entry of the deterministic scan of evidence.py, if it has criteria to add
  pub scan : PaperDraft → Option Payload

-- The disk, the gateway and the settings. `is_io_error` tells the `httpx.HTTPError`s and `OSError`s.
pub record Host (Num W : Type 0) : Type 0 where
  pub lib : Library W
  pub duration_ms : W → W → ℕ
  pub write_text : Text → Text → Exec W (Unit {0})
  pub write_bytes : Text → List ℕ → Exec W (Unit {0})
  pub dump_meta : PaperMeta Num → Text
  pub export_paper : Exec W (List ℕ)
  pub auto_export_pdf : Bool
  pub is_io_error : Error → Bool
  pub path_in_run : Text → Text
  -- it is taken not to raise
  pub close_gateway : W → W

module _ {Num W : Type 0} ⦃fl : Float Num⦄ (sv : Services Num W) where
  -- The loop's arguments in `run_pipeline`: the default policy, no estimates, the run's tracker.
  abbrev pub stage_loop : {A : Type 0} → Stage → Review Num W A → Revise Num W A → Loop Num W A
  stage_loop stage review revise = record {
    target = stage;
    review = review;
    revise = revise;
    policy = default_critic_policy;
    tracked = true;
    review_cost = or_default none (default_critic_policy {Num = Num}).estimated_review_cost_rmb;
    revision_cost = or_default none (default_critic_policy {Num = Num}).estimated_revision_cost_rmb;
  }

  -- The poll at a stage's boundary, and the agent, which is given the stage's reminder.
  pub run_stage : {A : Type 0} → Stage → (Text → Exec W A) → Exec (RunState Num W) A
  run_stage stage m = do
    poll sv
    reminder ← gets (λ s. get_reminder s.reminders stage)
    ask (ran stage) (m reminder)

  abbrev pub log_scan : Option Payload → Exec (RunState Num W) (Unit {0})
  log_scan none = pure tt
  log_scan (some p) = emit_event sv EventKind.log p (some (AgentName.stage writer))

  module _ (h : Host Num W) where
    abbrev pub log_export : Text → Text → Exec (RunState Num W) (Unit {0})
    log_export level m =
        emit_event sv EventKind.log
          ((text "level", Value.str level) ∷ (text "message", Value.str m) ∷ []) none

    -- `pdf_bytes.startswith(b"%PDF")`
    abbrev pub is_pdf : List ℕ → Bool
    is_pdf bytes = is_some (after_prefix (text "%PDF") bytes)

    pub save_pdf : List ℕ → Exec (RunState Num W) (Option Text)
    save_pdf bytes =
        if is_pdf bytes
        then (do
          ask (wrote (text "paper.pdf")) (h.write_bytes (h.path_in_run (text "paper.pdf")) bytes)
          log_export (text "info")
              (text "paper.pdf written (" ++ decimal (length bytes) ++ text " bytes)")
          pure (some (h.path_in_run (text "paper.pdf"))))
        else (do
          log_export (text "warning") (
              text "auto-export returned non-PDF payload ("
              ++ decimal (length bytes)
              ++ text " bytes); paper.md remains canonical")
          pure none)

    pub try_export : Exec (RunState Num W) (Option Text)
    try_export = do
      log_export (text "info") (text "auto-exporting paper.pdf via gateway/export/pdf")
      bytes ← ask exported h.export_paper
      save_pdf bytes

    pub export_failed : Error → Exec (RunState Num W) (Option Text)
    export_failed e =
        if h.is_io_error e
        then (log_export (text "warning")
              (text "auto-export PDF failed: " ++ message e ++ text "; paper.md remains canonical")
            >> pure none)
        else raise e

    -- `_auto_export_pdf`
    pub auto_export : Exec (RunState Num W) (Option Text)
    auto_export = if h.auto_export_pdf then try_except try_export export_failed else pure none

    abbrev pub pdf_entry : Option Text → Payload
    pdf_entry none = []
    pdf_entry (some path) = (text "pdf_path", Value.str path) ∷ []

    abbrev pub success_payload : CoderOutput Num → Option Text → Payload
    success_payload coder_out pdf =
        (text "status", Value.str (text "success"))
        ∷ (text "notebook_path", Value.str coder_out.notebook_path)
        ∷ (text "paper_path", Value.str (h.path_in_run (text "paper.md")))
        ∷ (text "meta_path", Value.str (h.path_in_run (text "paper.meta.json")))
        ∷ pdf_entry pdf

    -- The files of the paper and its PDF.
    pub publish : ProblemInput → CoderOutput Num → PaperDraft → Exec (RunState Num W) (Option Text)
    publish problem coder_out paper = do
      ask (wrote (text "paper.md")) (
          h.write_text (h.path_in_run (text "paper.md")) (
            render_paper_markdown h.lib.is_digit
              (substitute_figure_placeholders paper coder_out.figures)))
      ask (wrote (text "paper.meta.json")) (
          h.write_text (h.path_in_run (text "paper.meta.json"))
            (h.dump_meta (build_paper_meta problem paper coder_out.figures)))
      auto_export

    pub announce : CoderOutput Num → Option Text → Exec (RunState Num W) (Unit {0})
    announce coder_out pdf = emit_event sv EventKind.done (success_payload coder_out pdf) none

    module _ {Findings : Type 0} (ag : Agents Num W Findings) where
      abbrev pub gate :
          ProblemInput → AnalyzerOutput → ModelSpec → CoderOutput Num → Findings → Gate Num W
      gate problem analysis spec coder_out findings = record {
        lib = h.lib;
        revise = ag.revise_audited problem analysis spec coder_out findings;
        coder_out = coder_out;
        analysis = analysis;
        tracked = true;
        duration_ms = h.duration_ms;
      }

      pub write_paper :
          ProblemInput
          → AnalyzerOutput
          → ModelSpec
          → CoderOutput Num
          → Findings
          → Exec (RunState Num W) PaperDraft
      write_paper problem analysis spec coder_out findings = do
        paper ← run_stage writer (ag.write problem analysis spec coder_out findings)
        log_scan (ag.scan paper)
        reviewed ←
            review_and_maybe_revise sv
              (stage_loop writer (ag.review_paper problem analysis spec coder_out findings paper)
                (ag.revise_paper problem analysis spec coder_out findings paper))
              paper
        run_audit_and_maybe_revise sv (gate problem analysis spec coder_out findings) reviewed

      pub code_spec :
          ProblemInput → AnalyzerOutput → ModelSpec → Exec (RunState Num W) (CoderOutput Num)
      code_spec problem analysis spec = do
        coder_out ← run_stage coder (ag.code problem analysis spec)
        review_and_maybe_rerun_coder sv (ag.review_code problem analysis spec)
            (ag.rerun_code problem analysis spec) default_critic_policy true coder_out

      pub model_analysis : ProblemInput → AnalyzerOutput → Exec (RunState Num W) ModelSpec
      model_analysis problem analysis = do
        spec ← run_stage modeler (ag.model problem analysis)
        review_and_maybe_revise sv
            (stage_loop modeler (ag.review_spec problem analysis) (ag.revise_spec problem analysis))
            spec

      pub search_papers : ProblemInput → AnalyzerOutput → Exec (RunState Num W) Findings
      search_papers problem analysis = do
        findings ← run_stage searcher (ag.search problem analysis)
        review_and_maybe_revise sv
            (stage_loop searcher (ag.review_findings problem analysis)
              (ag.revise_findings problem analysis))
            findings

      pub analyze_problem : ProblemInput → Exec (RunState Num W) AnalyzerOutput
      analyze_problem problem = do
        analysis ← run_stage analyzer (λ reminder. ag.analyze problem)
        review_and_maybe_revise sv
            (stage_loop analyzer (ag.review_analysis problem) (ag.revise_analysis problem)) analysis

      -- The body of the inner `try`.
      pub stages : ProblemInput → Exec (RunState Num W) (Unit {0})
      stages problem = do
        analysis ← analyze_problem problem
        findings ← search_papers problem analysis
        spec ← model_analysis problem analysis
        coder_out ← code_spec problem analysis spec
        paper ← write_paper problem analysis spec coder_out findings
        pdf ← publish problem coder_out paper
        announce coder_out pdf

      abbrev pub finish_as : Text → Exec (RunState Num W) (Unit {0})
      finish_as status = emit_event sv EventKind.done ((text "status", Value.str status) ∷ []) none

      abbrev pub fail_with : Text → Exec (RunState Num W) (Unit {0})
      fail_with m =
          emit_event sv EventKind.error
            ((text "message", Value.str m)
              ∷ (text "code", Value.str (text "agent_error"))
              ∷ (text "stage", Value.null)
              ∷ [])
            none
          >> finish_as (text "failed")

      -- `except RunCancelled` and `except AgentError`
      pub on_error : Error → Exec (RunState Num W) (Unit {0})
      on_error (run_cancelled m) = do
        log_export (text "info") (text "run cancelled by user")
        finish_as (text "cancelled")
      on_error (agent_error m) = fail_with m
      on_error (agent_parse_error m) = fail_with m
      on_error (other c m) = raise (other c m)

      -- `finally: await gateway.close()`
      abbrev pub finally_close :
          {A : Type 0} → Result A × RunState Num W → Result A × RunState Num W
      finally_close (r, s) = (r, record s { world = h.close_gateway s.world })

      -- `run_pipeline`
      pub run_pipeline : ProblemInput → Exec (RunState Num W) (Unit {0})
      run_pipeline problem s = finally_close (
          try_except (stages problem) on_error
            (record s { tracker = CostTracker.start s.emitter.run_id; reminders = [] }))
