-- ===== src/Pipeline/Review.antt =====
-- pipeline.py: `_review_and_maybe_revise`. The Critic and the producer are its arguments, as there:
-- `review` takes the target, the artifact, the round and the number of rounds; `revise` is
-- `revise_with_critique`. `A` is the type of the artifact.
pub mod Quiet
pub mod Bounds
pub mod Outcome
pub mod Handover
pub mod Reminders
pub mod Tests
use mathodology.Prelude.{
  ℕ, zero, suc, ◌+◌, Bool, true, false, Option, none, some, List, [], ◌∷◌, ◌++◌, if◌then◌else◌,
  take, length,
}
use mathodology.Text.{Text, text, truthy}
use mathodology.Exec.{
  Error, is_agent_error, Result, ok, err, Exec, pure, raise, ◌>>=◌, ◌>>◌, continue,
}
use mathodology.Float.{Float}
use mathodology.Contracts.{Stage, stage_name, CritiqueReport}
use mathodology.Events.{AgentName, stage, EventKind, log, Payload, Value}
use mathodology.Hooks.{merged_reminder, aggregate, critique_to_hook_result}
use mathodology.Pipeline.Policy.{
  CriticPolicy, max_rounds_for, critique_requires_revision, critique_should_fail_run,
  next_stage_after,
}
use mathodology.Pipeline.State.{
  RunState, Services, Call, reviewed, revised, ask, remind, emit_event, snapshot, delta,
}

abbrev pub exhausted : {Num : Type 0} → CritiqueReport Num → CritiqueReport Num
exhausted report = record report { budget_exhausted = true }

-- How the rounds end: by an accepting verdict, or with the last report.
pub data Ending (Num A : Type 0) : Type 0 where
  accepted : A → Ending Num A
  stopped : A → CritiqueReport Num → Ending Num A

abbrev pub artifact : {Num A : Type 0} → Ending Num A → A
artifact (accepted a) = a
artifact (stopped a report) = a

-- The reminder that the final verdict leaves for the next stage.
unfoldable pub reminder_of : {Num : Type 0} → CritiqueReport Num → Text
reminder_of report =
    merged_reminder (aggregate {Json = Payload} (critique_to_hook_result report ∷ []))

abbrev pub optional_stage : Option Stage → Value
optional_stage none = Value.null
optional_stage (some s) = Value.str (stage_name s)

-- `est_default` if no estimate is given
abbrev pub or_default {ℓ} : {A : Type ℓ} → Option A → A → A
or_default none d = d
or_default (some x) d = x

abbrev pub warning_payload : {Num : Type 0} → Stage → CritiqueReport Num → Payload
warning_payload target report =
    (text "level", Value.str (text "warning"))
    ∷ (
      text "message",
      Value.str (
          text "Critic flagged "
          ++ stage_name target
          ++ text " after revision exhausted: "
          ++ take 240 report.summary),
    )
    ∷ []

abbrev pub reminder_payload : Option Stage → Text → Payload
reminder_payload next reminder =
    (text "level", Value.str (text "info"))
    ∷ (text "message", Value.str (text "post-stage reminder available for downstream"))
    ∷ (text "for_stage", optional_stage next)
    ∷ (text "reminder_chars", Value.int (length reminder))
    ∷ (text "reminder", Value.str reminder)
    ∷ []

-- The arguments of one review: the Critic and the producer, the policy, the two estimates in force,
-- and whether a cost tracker is given.
pub record Loop (Num W A : Type 0) : Type 0 where
  pub target : Stage
  pub review : Stage → A → ℕ → ℕ → Exec W (CritiqueReport Num)
  pub revise : A → CritiqueReport Num → Exec W A
  pub policy : CriticPolicy Num
  pub tracked : Bool
  pub review_cost : Num
  pub revision_cost : Num

-- What one round comes to: the end, or the artifact, the report and the spend of the next round.
pub data Turn (Num A : Type 0) : Type 0 where
  finished : Ending Num A → Turn Num A
  again : A → CritiqueReport Num → Num → Turn Num A

module _ {Num W A : Type 0} ⦃fl : Float Num⦄ (sv : Services Num W) (l : Loop Num W A) where
  abbrev pub max_rounds : ℕ
  max_rounds = max_rounds_for l.policy l.target

  -- `_spent_so_far`
  pub spent_so_far : Num → Exec (RunState Num W) Num
  spent_so_far estimate = if l.tracked then delta sv else pure estimate

  abbrev pub over_budget : Num → Num → Bool
  over_budget actual next = fl.lt l.policy.max_revision_cost_rmb (fl.add actual next)

  pub review_in : ℕ → A → Exec (RunState Num W) (CritiqueReport Num)
  review_in round current =
      ask (reviewed l.target round) (l.review l.target current round max_rounds)

  pub revise_in : ℕ → Num → A → CritiqueReport Num → Exec (RunState Num W) A
  revise_in round actual current report =
      ask (revised l.target round actual) (l.revise current report)

  abbrev pub judge : A → CritiqueReport Num → Num → Turn Num A
  judge current report spent =
      if critique_requires_revision report l.policy
      then again current report spent
      else finished (accepted current)

  -- The second half of a round: the review of what was revised, if the budget allows it.
  pub re_review : ℕ → A → CritiqueReport Num → Num → Exec (RunState Num W) (Turn Num A)
  re_review round current report spent = do
    actual ← spent_so_far spent
    if over_budget actual l.review_cost
        then pure (finished (stopped current (exhausted report)))
        else do
          report' ← review_in round current
          pure (judge current report' (fl.add spent l.review_cost))

  -- `except AgentError`: the prior artifact is kept.
  abbrev pub after_revision :
      ℕ → A → CritiqueReport Num → Num → Result A → Exec (RunState Num W) (Turn Num A)
  after_revision round current report spent (err e) =
      if is_agent_error e then pure (finished (stopped current report)) else raise e
  after_revision round current report spent (ok revision) =
      re_review round revision report (fl.add spent l.revision_cost)

  abbrev pub attempt : ℕ → Num → A → CritiqueReport Num → Num → Exec (RunState Num W) (Turn Num A)
  attempt round actual current report spent s =
      let (r, s') = revise_in round actual current report s in
      after_revision round current report spent r s'

  -- The body of the `for` loop.
  pub turn : ℕ → A → CritiqueReport Num → Num → Exec (RunState Num W) (Turn Num A)
  turn round current report spent = do
    actual ← spent_so_far spent
    if over_budget actual l.revision_cost
        then pure (finished (stopped current (exhausted report)))
        else attempt round actual current report spent

  abbrev pub proceed :
      (A → CritiqueReport Num → Num → Exec (RunState Num W) (Ending Num A))
      → Turn Num A
      → Exec (RunState Num W) (Ending Num A)
  proceed next (finished e) = pure e
  proceed next (again current report spent) = next current report spent

  -- The `for` loop, by the rounds that are left.
  pub rounds : ℕ → ℕ → A → CritiqueReport Num → Num → Exec (RunState Num W) (Ending Num A)
  rounds zero round current report spent = pure (stopped current report)
  rounds (suc k) round current report spent =
      turn round current report spent >>= proceed (rounds k (round + 1))

  abbrev pub start_tracker : Exec (RunState Num W) (Unit {0})
  start_tracker = if l.tracked then snapshot sv else pure tt

  -- The first review and the loop; what both functions share. The estimate-only cost starts at the
  -- estimate of a review, which the source also writes as 0.0 and that estimate added.
  pub reviewed_rounds : A → Exec (RunState Num W) (Ending Num A)
  reviewed_rounds output = do
    start_tracker
    report ← review_in 0 output
    if critique_requires_revision report l.policy
        then rounds max_rounds 1 output report l.review_cost
        else pure (accepted output)

  -- A loud warning, and no failure.
  pub warn : CritiqueReport Num → Exec (RunState Num W) (Unit {0})
  warn report =
      if critique_should_fail_run report
      then emit_event sv log (warning_payload l.target report) (some (stage l.target))
      else pure tt

  abbrev pub hand_on : Option Stage → Text → Exec (RunState Num W) (Unit {0})
  hand_on none reminder = pure tt
  hand_on (some next) reminder = remind next reminder

  -- The reminder, for the next stage and for the log.
  pub leave_reminder : Text → Exec (RunState Num W) (Unit {0})
  leave_reminder reminder =
      if truthy reminder
      then (do
        hand_on (next_stage_after l.target) reminder
        emit_event sv log (reminder_payload (next_stage_after l.target) reminder)
            (some (stage l.target)))
      else pure tt

  pub settle : Ending Num A → Exec (RunState Num W) A
  settle (accepted current) = pure current
  settle (stopped current report) = do
    warn report
    leave_reminder (reminder_of report)
    pure current

  -- `_review_and_maybe_revise`
  pub review_and_maybe_revise : A → Exec (RunState Num W) A
  review_and_maybe_revise output = do settle (← reviewed_rounds output)
