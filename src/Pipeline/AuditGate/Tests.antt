-- ===== src/Pipeline/AuditGate/Tests.antt =====
-- Tests of `_run_audit_and_maybe_revise`: a paper with too few references, which the Writer revises.
use mathodology.Prelude.{ℕ, ◌+◌, ◌≡◌, arith, true}
use mathodology.Text.{text}
use mathodology.Exec.{is_agent_error, Error, ok}
use mathodology.Float.{cents}
use mathodology.Events.{emit}
use mathodology.Cancellation.{check_or_raise, is_cancelled}
use mathodology.Pipeline.State.{emit_event, poll}
use mathodology.Pipeline.Review.Tests.{services, start}
use mathodology.Pipeline.Run.Tests.{library, analysis, coder_out, paper}
use mathodology.Pipeline.AuditGate.{Gate, run_audit_and_maybe_revise}
use mathodology.Pipeline.AuditGate.Outcome.{
  GateRaises, Yields, Ships, run_audit_and_maybe_revise_outcome,
}

abbrev gate : Gate ℕ ℕ
gate = record {
  lib = library;
  revise = λ draft report w. (ok (record draft { abstract = text "We plan 14." }), w + 30);
  coder_out = coder_out;
  analysis = analysis;
  tracked = true;
  duration_ms = λ w w'. 0;
}

-- Here only the poll of the cancel flag may raise, and what it raises is an `AgentError`.
abbrev Cancels : Error → Type 0
Cancels e = is_agent_error e ≡ true

gate-GateRaises : GateRaises services gate Cancels
unfolding emit_event emit poll check_or_raise is_cancelled
gate-GateRaises = record {
  event_raises = λ kind payload agent s e h. cc;
  poll_raises = λ s e h. ground arith;
  revise_raises = λ draft report w e h k. cc;
}

run_audit_and_maybe_revise_outcome_example :
    Yields Cancels
      (Ships services gate paper)
      (run_audit_and_maybe_revise services gate paper start)
run_audit_and_maybe_revise_outcome_example =
    run_audit_and_maybe_revise_outcome services gate Cancels gate-GateRaises paper start
