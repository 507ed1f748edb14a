-- ===== src/Pipeline/AuditGate/Quiet.antt =====
-- pipeline.py: `_run_audit_and_maybe_revise` runs no agent of the order and ends no run.
use mathodology.Prelude.{ℕ, refl, List, [], ◌∷◌}
use mathodology.Exec.{is_agent_error, Result, ok, err}
use mathodology.Float.{Float}
use mathodology.Contracts.Artifacts.{PaperDraft}
use mathodology.Events.{stage_start, stage_done, log}
use mathodology.Audit.{AuditFinding, AuditReport, DispatchTarget, passed, blocking_for}
use mathodology.Pipeline.State.{Services, bounced, ask}
use mathodology.Pipeline.AuditGate.{
  Gate, audit_now, world_now, log_second, log_stage_done, fake_critique, surface, after_bounce,
  bounce, dispatch, first_audit, refresh_total, run_audit_and_maybe_revise,
}
use mathodology.Pipeline.Quiet.{
  Quiet, Quiet-pure, Quiet-if, Quiet-bind, emit-Quiet, poll-Quiet, total-Quiet,
}

module _ {Num W : Type 0} ⦃fl : Float Num⦄ (sv : Services Num W) (g : Gate Num W) where
  surface-Quiet : (fs : List AuditFinding) → Quiet (surface sv g fs)
  unfolding surface
  surface-Quiet [] = Quiet-pure tt
  surface-Quiet (f ∷ fs) = Quiet-bind _ (emit-Quiet sv log _ _ refl) λ t. surface-Quiet fs

  audit_now-Quiet : (paper : PaperDraft) → Quiet (audit_now sv g paper)
  unfolding audit_now
  audit_now-Quiet paper = record { keeps = λ s. refl }

  world_now-Quiet : Quiet (world_now sv g)
  unfolding world_now
  world_now-Quiet = record { keeps = λ s. refl }

  log_second-Quiet : (report second : AuditReport) → Quiet (log_second sv g report second)
  unfolding log_second
  log_second-Quiet report second = emit-Quiet sv log _ _ refl

  log_stage_done-Quiet : (report : AuditReport) (ms : ℕ) → Quiet (log_stage_done sv g report ms)
  unfolding log_stage_done
  log_stage_done-Quiet report ms = emit-Quiet sv stage_done _ _ refl

  refresh-Quiet : Quiet (refresh_total sv g)
  refresh-Quiet =
      Quiet-if g.tracked (Quiet-bind _ (total-Quiet sv) λ x. Quiet-pure tt) (Quiet-pure tt)

  after_bounce-Quiet :
      (paper : PaperDraft) (report : AuditReport) (r : Result PaperDraft)
      → Quiet (after_bounce sv g paper report r)
  unfolding after_bounce
  after_bounce-Quiet paper report (err e) =
      Quiet-if (is_agent_error e) (Quiet-bind _ (emit-Quiet sv log _ _ refl) λ t. Quiet-pure paper)
        (record { keeps = λ s. refl })
  after_bounce-Quiet paper report (ok b) = Quiet-bind _ refresh-Quiet λ t.
      Quiet-bind _ (audit_now-Quiet b)
        λ second. Quiet-bind _ (log_second-Quiet report second) λ u. Quiet-pure b

  bounce-Quiet : (paper : PaperDraft) (report : AuditReport) → Quiet (bounce sv g paper report)
  unfolding bounce
  bounce-Quiet paper report = record {
    keeps = λ s.
        (after_bounce-Quiet paper report
            (ask bounced (g.revise paper (fake_critique report)) s).0).keeps
          (ask bounced (g.revise paper (fake_critique report)) s).1;
  }

  dispatch-Quiet :
      (paper : PaperDraft) (report : AuditReport) (fs : List AuditFinding)
      → Quiet (dispatch sv g paper report fs)
  unfolding dispatch
  dispatch-Quiet paper report [] = Quiet-pure paper
  dispatch-Quiet paper report (f ∷ fs) =
      Quiet-bind _ (poll-Quiet sv)
        λ t. Quiet-bind _ (emit-Quiet sv log _ _ refl) λ u. bounce-Quiet paper report

  first_audit-Quiet : (paper : PaperDraft) → Quiet (first_audit sv g paper)
  unfolding first_audit
  first_audit-Quiet paper = Quiet-bind _ (emit-Quiet sv stage_start _ _ refl) λ t.
      Quiet-bind _ world_now-Quiet λ t0. Quiet-bind _ (audit_now-Quiet paper) λ report.
        Quiet-bind _ (surface-Quiet report.findings) λ u. Quiet-bind _ world_now-Quiet λ t1.
          Quiet-bind _ (log_stage_done-Quiet report (g.duration_ms t0 t1)) λ v. Quiet-pure report

  pub run_audit-Quiet : (paper : PaperDraft) → Quiet (run_audit_and_maybe_revise sv g paper)
  unfolding run_audit_and_maybe_revise
  run_audit-Quiet paper = Quiet-bind _ (first_audit-Quiet paper) λ report.
      Quiet-if (passed report) (Quiet-pure paper)
        (dispatch-Quiet paper report (blocking_for DispatchTarget.writer report))
