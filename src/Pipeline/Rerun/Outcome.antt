-- ===== src/Pipeline/Rerun/Outcome.antt =====
-- pipeline.py: the bounds of `_review_and_maybe_rerun_coder`, and what it returns and leaves.
use mathodology.Prelude.{
  ℕ, ◌+◌, ◌≤◌, ◌≡◌, refl, ◌⊎◌, inl, inr, ap, ◌∙◌, some, Bool, arith, Bool-cases,
}
use mathodology.Exec.{Error, Result, ok, err, Exec, continue}
use mathodology.Float.{Float}
use mathodology.Text.{Text, truthy}
use mathodology.Contracts.{Stage, coder, writer, CritiqueReport}
use mathodology.Pipeline.Policy.{CriticPolicy, max_rounds_for}
use mathodology.Pipeline.State.{RunState, Services, Reminders}
use mathodology.Pipeline.Review.{
  Ending, accepted, stopped, artifact, Loop, reminder_of, reviewed_rounds, warn,
}
use mathodology.Pipeline.Review.Bounds.{
  revisions, reviews, InBudget, Adds, Adds-pure, Adds-if, Adds-bind, warn-Adds,
  reviewed_rounds-Adds,
}
use mathodology.Pipeline.Review.Outcome.{Raises, Revised, Post, EndFrom, reviewed_rounds-Post}
use mathodology.Pipeline.Review.Handover.{
  handed_on, Ends, Ends-continue, Ends-weaken, Left, warn-Ends,
}
use mathodology.Pipeline.Rerun.{
  coder_loop, remind_writer, settle_coder, review_and_maybe_rerun_coder,
}

-- What `settle_coder` returns and leaves behind.
abbrev SettledCoder : {Num C : Type 0} → Reminders → Ending Num C → C → Reminders → Type 0
SettledCoder old (accepted c) b new = (b ≡ c) × (new ≡ old)
SettledCoder old (stopped c report) b new =
    (b ≡ c) × (new ≡ handed_on (some writer) (reminder_of report) old)

-- What the whole function returns and leaves behind, by the loop's arguments.
abbrev pub RerunFrom : {Num W C : Type 0} → Loop Num W C → C → Reminders → C → Reminders → Type 0
RerunFrom {Num} l coder_out old c new =
    (n : ℕ) × (n ≤ max_rounds_for l.policy coder)
    × Revised l coder_out n c
    × ((new ≡ old)
        ⊎ ((report : CritiqueReport Num) × (new
              ≡ handed_on (some writer) (reminder_of report) old)))

module _ {Num W C : Type 0} ⦃fl : Float Num⦄ (sv : Services Num W)
    (review : Stage → C → ℕ → ℕ → Exec W (CritiqueReport Num))
    (rerun : C → CritiqueReport Num → Exec W C) (policy : CriticPolicy Num) (tracked : Bool) where
  remind_writer-Adds :
      (reminder : Text)
      → Adds sv
          (coder_loop review rerun policy tracked)
          0
          0
          (remind_writer sv review rerun policy tracked reminder)
  unfolding remind_writer
  remind_writer-Adds reminder =
      Adds-if sv (coder_loop review rerun policy tracked) (truthy reminder)
        (λ e. record {
          revises = λ s. omega arith;
          appraises = λ s. omega arith;
          budget = λ s h. h;
        })
        (λ e. Adds-pure sv (coder_loop review rerun policy tracked) tt)

  settle_coder-Adds :
      (e : Ending Num C)
      → Adds sv
          (coder_loop review rerun policy tracked)
          0
          0
          (settle_coder sv review rerun policy tracked e)
  unfolding settle_coder
  settle_coder-Adds (accepted c) = Adds-pure sv (coder_loop review rerun policy tracked) c
  settle_coder-Adds (stopped c report) =
      Adds-bind sv (coder_loop review rerun policy tracked) _
        (warn-Adds sv (coder_loop review rerun policy tracked) report)
        λ t.
          Adds-bind sv (coder_loop review rerun policy tracked) _
            (remind_writer-Adds (reminder_of report))
            λ u. Adds-pure sv (coder_loop review rerun policy tracked) c

  -- The Coder is rerun at most as often as the policy allows rounds for it, and reviewed once more;
  -- and each rerun is asked for only when the spend read just before it, with the estimate of a
  -- rerun, did not exceed the budget.
  pub rerun_coder_bounds :
      (coder_out : C) (s : RunState Num W)
      → InBudget sv (coder_loop review rerun policy tracked) s.calls
      → let s' = (review_and_maybe_rerun_coder sv review rerun policy tracked coder_out s).1 in
        (revisions s'.calls ≤ revisions s.calls + max_rounds_for policy coder)
        × (reviews s'.calls ≤ reviews s.calls + max_rounds_for policy coder + 1)
        × InBudget sv (coder_loop review rerun policy tracked) s'.calls
  unfolding review_and_maybe_rerun_coder
  rerun_coder_bounds coder_out s h =
      let all =
        Adds-bind sv (coder_loop review rerun policy tracked) _
          (reviewed_rounds-Adds sv (coder_loop review rerun policy tracked) coder_out)
          settle_coder-Adds in
      (omega (arith, all.revises s), omega (arith, all.appraises s), all.budget s h)

  module _ (E : Error → Type 0)
      (raises : Raises sv (coder_loop review rerun policy tracked) E) where
    remind_writer-Ends :
        (reminder : Text) (s : RunState Num W)
        → Ends E
            (λ t rs. rs ≡ handed_on (some writer) reminder s.reminders)
            (remind_writer sv review rerun policy tracked reminder s)
    unfolding remind_writer
    remind_writer-Ends reminder s = elim (Bool-cases (truthy reminder)) [
      | inl e ↦ rw e
      | inr e ↦ rw e
    ]

    settle_coder-Ends :
        (e : Ending Num C) (s : RunState Num W)
        → Ends E (SettledCoder s.reminders e) (settle_coder sv review rerun policy tracked e s)
    unfolding settle_coder
    settle_coder-Ends (accepted c) s = (refl, refl)
    settle_coder-Ends (stopped c report) s =
        let l = coder_loop review rerun policy tracked in
        Ends-continue sv l E raises (Left s.reminders) (SettledCoder s.reminders (stopped c report))
          _ (warn sv l report s) (warn-Ends sv l E raises report s)
          λ t s' kept.
            Ends-continue sv l E raises
              (λ u rs. rs ≡ handed_on (some writer) (reminder_of report) s'.reminders)
              (SettledCoder s.reminders (stopped c report)) _
              (remind_writer sv review rerun policy tracked (reminder_of report) s')
              (remind_writer-Ends (reminder_of report) s')
              λ u s'' left. (refl, left ∙ ap (handed_on (some writer) (reminder_of report)) kept)

    SettledCoder-RerunFrom :
        (coder_out : C) (old : Reminders) (e : Ending Num C) (s : RunState Num W) (c : C)
        (new : Reminders)
        → (n : ℕ) × (n ≤ max_rounds_for policy coder)
          × Revised (coder_loop review rerun policy tracked) coder_out n (artifact e)
        → s.reminders ≡ old
        → SettledCoder s.reminders e c new
        → RerunFrom (coder_loop review rerun policy tracked) coder_out old c new
    SettledCoder-RerunFrom coder_out old (accepted a) s c new (n, few, made) kept (is_a, left) =
        (n, few, rw is_a made, inl (left ∙ kept))
    SettledCoder-RerunFrom coder_out old (stopped a report) s c new (n, few, made) kept
          (is_a, left) =
        (
          n,
          few,
          rw is_a made,
          inr (report, left ∙ ap (handed_on (some writer) (reminder_of report)) kept),
        )

    -- `_review_and_maybe_rerun_coder` returns the Coder's output after at most the allowed number
    -- of successful reruns, each fed with the output of the one before, and leaves the reminders
    -- as they were or hands that of one report to the Writer. It raises nothing but what the
    -- review or an event raises, and what a rerun raises that is no `AgentError`.
    pub rerun_coder_outcome :
        (coder_out : C) (s : RunState Num W)
        → Ends E
            (RerunFrom (coder_loop review rerun policy tracked) coder_out s.reminders)
            (review_and_maybe_rerun_coder sv review rerun policy tracked coder_out s)
    unfolding review_and_maybe_rerun_coder
    rerun_coder_outcome coder_out s =
        after_rounds (reviewed_rounds sv (coder_loop review rerun policy tracked) coder_out s)
          (reviewed_rounds-Post sv (coder_loop review rerun policy tracked) E raises coder_out s)
      where
        after_rounds :
            (p : Result (Ending Num C) × RunState Num W)
            → Post E
                (EndFrom
                  (coder_loop review rerun policy tracked)
                  coder_out
                  (max_rounds_for policy coder))
                s
                p
            → Ends E
                (RerunFrom (coder_loop review rerun policy tracked) coder_out s.reminders)
                (continue (settle_coder sv review rerun policy tracked) p.0 p.1)
        after_rounds (err e, s') h = h
        after_rounds (ok e, s') (made, kept) =
            Ends-weaken sv (coder_loop review rerun policy tracked) E raises
              (SettledCoder s'.reminders e)
              (RerunFrom (coder_loop review rerun policy tracked) coder_out s.reminders)
              (settle_coder sv review rerun policy tracked e s') (settle_coder-Ends e s')
              (λ c new. SettledCoder-RerunFrom coder_out s.reminders e s' c new made kept)
