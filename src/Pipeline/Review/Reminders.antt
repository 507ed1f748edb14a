-- ===== src/Pipeline/Review/Reminders.antt =====
-- pipeline.py: which verdicts of `_review_and_maybe_revise` leave a reminder for the next stage.
use mathodology.Prelude.{◌≡◌, ◌≢◌, refl, inl, inr, some, true, false, [], ◌∷◌, Bool-cases}
use mathodology.Exec.{ok}
use mathodology.Float.{Float}
use mathodology.Text.{Text, truthy}
use mathodology.Contracts.{Stage, CritiqueReport}
use mathodology.Events.{Payload}
use mathodology.Hooks.Reminder.{reminder-nil}
use mathodology.Pipeline.Policy.{next_stage_after}
use mathodology.Pipeline.State.{RunState, Services, get_reminder, get_reminder-insert}
use mathodology.Pipeline.Review.{
  stopped, Loop, reminder_of, reviewed_rounds, settle, review_and_maybe_revise,
}
use mathodology.Pipeline.Review.Outcome.{Raises}
use mathodology.Pipeline.Review.Handover.{handed_on, settle-Ends}

falsy : (t : Text) → truthy t ≡ false → t ≡ []
falsy [] e = refl
falsy (c ∷ t) e = cc

reminder_there :
    {Num : Type 0} (report : CritiqueReport Num)
    → report.summary ≢ []
    → truthy (reminder_of report) ≡ true
unfolding reminder_of
reminder_there report summary = elim (Bool-cases (truthy (reminder_of report))) [
  | inl there ↦ there
  | inr blank ↦ absurd (summary ((reminder-nil report Payload).0 (falsy _ blank)).0)
]

module _ {Num W A : Type 0} ⦃fl : Float Num⦄ (sv : Services Num W) (l : Loop Num W A) where
  anything : Raises sv l (λ e. Unit {0})
  anything = record {
    review_raises = λ a r w e h. tt;
    revise_raises = λ a r w e h k. tt;
    emit_raises = λ k p a s e h. tt;
  }

  -- If the rounds stop with a report that has a summary, and the result is returned, then the
  -- artifact in hand is returned and the next stage, if there is one, finds the report's reminder.
  pub stopped_hands_on :
      (output a b : A) (s s₁ s' : RunState Num W) (report : CritiqueReport Num) (next : Stage)
      → reviewed_rounds sv l output s ≡ (ok (stopped a report), s₁)
      → review_and_maybe_revise sv l output s ≡ (ok b, s')
      → next_stage_after l.target ≡ some next
      → report.summary ≢ []
      → (b ≡ a) × (get_reminder s'.reminders next ≡ reminder_of report)
  unfolding review_and_maybe_revise
  stopped_hands_on output a b s s₁ s' report next stop done follows summary =
      let settled = settle-Ends sv l (λ e. Unit {0}) anything (stopped a report) s₁ in
      let at_end : settle sv l (stopped a report) s₁ ≡ (ok b, s') = rw stop at done in
      let left : (b ≡ a)
          × (s'.reminders
              ≡ handed_on (next_stage_after l.target) (reminder_of report) s₁.reminders) =
        rw at_end at settled in
      (
        left.0,
        rw (left.1, follows, reminder_there report summary)
            (get_reminder-insert next (reminder_of report) s₁.reminders),
      )
