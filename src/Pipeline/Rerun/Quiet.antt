-- ===== src/Pipeline/Rerun/Quiet.antt =====
-- pipeline.py: `_review_and_maybe_rerun_coder` runs no agent of the order and ends no run.
use mathodology.Prelude.{ℕ, refl, Bool}
use mathodology.Exec.{Exec}
use mathodology.Float.{Float}
use mathodology.Text.{Text, truthy}
use mathodology.Contracts.{Stage, CritiqueReport}
use mathodology.Pipeline.Policy.{CriticPolicy}
use mathodology.Pipeline.State.{Services}
use mathodology.Pipeline.Review.{Ending, accepted, stopped, reminder_of}
use mathodology.Pipeline.Rerun.{
  coder_loop, remind_writer, settle_coder, review_and_maybe_rerun_coder,
}
use mathodology.Pipeline.Quiet.{Quiet, Quiet-pure, Quiet-if, Quiet-bind}
use mathodology.Pipeline.Review.Quiet.{reviewed_rounds-Quiet, warn-Quiet}

module _ {Num W C : Type 0} ⦃fl : Float Num⦄ (sv : Services Num W)
    (review : Stage → C → ℕ → ℕ → Exec W (CritiqueReport Num))
    (rerun : C → CritiqueReport Num → Exec W C) (policy : CriticPolicy Num) (tracked : Bool) where
  remind_writer-Quiet : (t : Text) → Quiet (remind_writer sv review rerun policy tracked t)
  unfolding remind_writer
  remind_writer-Quiet t = Quiet-if (truthy t) (record { keeps = λ s. refl }) (Quiet-pure tt)

  settle_coder-Quiet : (e : Ending Num C) → Quiet (settle_coder sv review rerun policy tracked e)
  unfolding settle_coder
  settle_coder-Quiet (accepted c) = Quiet-pure c
  settle_coder-Quiet (stopped c r) =
      Quiet-bind _ (warn-Quiet sv (coder_loop review rerun policy tracked) r)
        λ t. Quiet-bind _ (remind_writer-Quiet (reminder_of r)) λ u. Quiet-pure c

  pub rerun_coder-Quiet :
      (c : C) → Quiet (review_and_maybe_rerun_coder sv review rerun policy tracked c)
  unfolding review_and_maybe_rerun_coder
  rerun_coder-Quiet c =
      Quiet-bind _ (reviewed_rounds-Quiet sv (coder_loop review rerun policy tracked) c)
        settle_coder-Quiet
