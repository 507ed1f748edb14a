-- ===== src/Pipeline/Rerun.antt =====
-- pipeline.py: `_review_and_maybe_rerun_coder`. Its loop is that of `_review_and_maybe_revise` with
-- the Coder for producer: `rerun` is `coder.run` on the problem that `build_revision_problem` makes
-- of the artifact and the report.
pub mod Quiet
pub mod Outcome
pub mod Tests
use mathodology.Prelude.{ℕ, Bool, if◌then◌else◌}
use mathodology.Text.{Text, truthy}
use mathodology.Exec.{Exec, pure, ◌>>=◌, ◌>>◌}
use mathodology.Float.{Float}
use mathodology.Contracts.{Stage, coder, writer, CritiqueReport}
use mathodology.Pipeline.Policy.{CriticPolicy}
use mathodology.Pipeline.State.{RunState, Services, remind}
use mathodology.Pipeline.Review.{
  Ending, accepted, stopped, Loop, reminder_of, reviewed_rounds, warn,
}

module _ {Num W C : Type 0} where
  -- The loop's arguments: the estimates are those of the policy.
  abbrev pub coder_loop :
      (Stage → C → ℕ → ℕ → Exec W (CritiqueReport Num))
      → (C → CritiqueReport Num → Exec W C)
      → CriticPolicy Num
      → Bool
      → Loop Num W C
  coder_loop review rerun policy tracked = record {
    target = coder;
    review = review;
    revise = rerun;
    policy = policy;
    tracked = tracked;
    review_cost = policy.estimated_review_cost_rmb;
    revision_cost = policy.estimated_coder_revision_cost_rmb;
  }

module _ {Num W C : Type 0} ⦃fl : Float Num⦄ (sv : Services Num W)
    (review : Stage → C → ℕ → ℕ → Exec W (CritiqueReport Num))
    (rerun : C → CritiqueReport Num → Exec W C) (policy : CriticPolicy Num) (tracked : Bool) where
  -- The reminder goes to the Writer, with no event of its own.
  pub remind_writer : Text → Exec (RunState Num W) (Unit {0})
  remind_writer reminder = if truthy reminder then remind writer reminder else pure tt

  pub settle_coder : Ending Num C → Exec (RunState Num W) C
  settle_coder (accepted current) = pure current
  settle_coder (stopped current report) = do
    warn sv (coder_loop review rerun policy tracked) report
    remind_writer (reminder_of report)
    pure current

  -- `_review_and_maybe_rerun_coder`
  pub review_and_maybe_rerun_coder : C → Exec (RunState Num W) C
  review_and_maybe_rerun_coder coder_out = do
    settle_coder (← reviewed_rounds sv (coder_loop review rerun policy tracked) coder_out)
