-- ===== src/Pipeline/Review/Tests.antt =====
-- Tests of `_review_and_maybe_revise`, in whole hundredths: the world is the spend, an artifact is
-- the number of its revisions, and a review costs 14, a revision 30.
use mathodology.Prelude.{
  ℕ, ◌+◌, ◌≤◌, ◌≡◌, refl, true, false, none, some, [], ◌∷◌, leb, if◌then◌else◌,
}
use mathodology.Text.{text, strip, join}
use mathodology.Hooks.{merged_reminder, aggregate, critique_to_hook_result}
use mathodology.Exec.{ok, Exec}
use mathodology.Float.{cents}
use mathodology.Contracts.{
  Stage, modeler, coder, Severity, blocking, minor, CritiqueReport, has_blocking_findings,
  major_finding_count, checklist_pass_rate,
}
use mathodology.Events.{Outside, emit}
use mathodology.CostTracker.{str, get_total, snapshot_baseline, delta_since_baseline}
use mathodology.CostTracker.Tests.{tally, read_tally}
use mathodology.Pipeline.Policy.{
  default_critic_policy, critique_requires_revision, critique_should_fail_run, next_stage_after,
}
use mathodology.Pipeline.State.{
  RunState, Services, reviewed, revised, emit_event, snapshot, delta, get_reminder,
}
use mathodology.Pipeline.Review.{
  Loop, stopped, exhausted, reminder_of, spent_so_far, review_in, revise_in, re_review, turn,
  rounds, reviewed_rounds, warn, leave_reminder, settle, review_and_maybe_revise,
}
use mathodology.Pipeline.Review.Bounds.{
  revisions, reviews, InBudget, review_and_maybe_revise_bounds,
}
use mathodology.Pipeline.Review.Outcome.{Raises}
use mathodology.Pipeline.Review.Handover.{Ends, Reviewed, review_and_maybe_revise_outcome}
use mathodology.Pipeline.Review.Reminders.{stopped_hands_on}

abbrev pub quiet : Outside ℕ
quiet = record {
  incr = λ key w. (ok 1, w);
  now = λ w. (0, w);
  append_line = λ path event w. (some tt, w);
  xadd = λ key event n w. (ok (text "0-1"), w);
}

-- The gateway's total is the spend.
abbrev pub services : Services ℕ ℕ
services = record {
  outside = quiet;
  redis_get = λ key w. (ok (some (str (tally w))), w);
  parse_float = read_tally;
}

abbrev pub start : RunState ℕ ℕ
start = record {
  world = 5;
  emitter = record { run_id = text "r"; seq = 0; events_log_path = none };
  tracker = record { run_id = text "r"; baseline = 0 };
  reminders = [];
  calls = [];
}

abbrev pub verdict : Stage → Severity → CritiqueReport ℕ
verdict target severity = record {
  target_agent = target;
  target_schema = text "ModelSpec";
  passed = true;
  score = 90;
  summary = text "weak";
  findings =
      record {
        severity = severity;
        area = text "units";
        message = text "no units";
        evidence = [];
        required_change = [];
      }
      ∷ [];
  required_changes = [];
  roles = [];
  checklist = [];
  revision_round = 0;
  max_revision_rounds = 2;
  budget_exhausted = false;
}

-- The Critic asks for a revision of everything that was revised less than `n` times.
abbrev pub strict : ℕ → Stage → ℕ → ℕ → ℕ → Exec ℕ (CritiqueReport ℕ)
strict n target a round last w = (ok (verdict target (if leb n a then minor else blocking)), w + 14)

abbrev modeler_loop : ℕ → Loop ℕ ℕ ℕ
modeler_loop n = record {
  target = modeler;
  review = strict n;
  revise = λ a report w. (ok (a + 1), w + 30);
  policy = default_critic_policy;
  tracked = true;
  review_cost = 14;
  revision_cost = 30;
}

modeler_loop-Raises : (n : ℕ) → Raises services (modeler_loop n) (λ e. ⊥)
unfolding emit_event emit
modeler_loop-Raises n = record {
  review_raises = λ a round w e h. cc;
  revise_raises = λ a report w e h k. cc;
  emit_raises = λ kind payload agent s e h. cc;
}

review_and_maybe_revise_outcome_example :
    Ends
      (λ e. ⊥)
      (Reviewed (modeler_loop 1) 0 [])
      (review_and_maybe_revise services (modeler_loop 1) 0 start)
review_and_maybe_revise_outcome_example =
    review_and_maybe_revise_outcome services (modeler_loop 1) (λ e. ⊥) (modeler_loop-Raises 1) 0
      start

review_and_maybe_revise_bounds_example :
    let s' = (review_and_maybe_revise services (modeler_loop 2) 0 start).1 in
    (revisions s'.calls ≤ 0 + 2)
    × (reviews s'.calls ≤ 0 + 2 + 1)
    × InBudget services (modeler_loop 2) s'.calls
review_and_maybe_revise_bounds_example =
    review_and_maybe_revise_bounds services (modeler_loop 2) 0 start tt

-- After the second revision the budget has no room for a review, and the rounds stop.
abbrev last_report : CritiqueReport ℕ
last_report = exhausted (verdict modeler blocking)

abbrev after_rounds : RunState ℕ ℕ
after_rounds = record start {
  world = 93;
  tracker = record { run_id = text "r"; baseline = 5 };
  calls =
      revised modeler 2 58 ∷ reviewed modeler 1 ∷ revised modeler 1 14 ∷ reviewed modeler 0 ∷ [];
}

abbrev at_end : RunState ℕ ℕ
at_end = (review_and_maybe_revise services (modeler_loop 2) 0 start).1

rounds_stop :
    reviewed_rounds services (modeler_loop 2) 0 start ≡ (ok (stopped 2 last_report), after_rounds)
unfolding reviewed_rounds rounds turn re_review spent_so_far review_in revise_in snapshot delta
    get_total snapshot_baseline delta_since_baseline critique_requires_revision
    has_blocking_findings major_finding_count checklist_pass_rate
rounds_stop = refl

run_ends : review_and_maybe_revise services (modeler_loop 2) 0 start ≡ (ok 2, at_end)
unfolding review_and_maybe_revise settle warn leave_reminder emit_event emit
    critique_should_fail_run reviewed_rounds rounds turn re_review spent_so_far review_in revise_in
    snapshot delta get_total snapshot_baseline delta_since_baseline critique_requires_revision
    has_blocking_findings major_finding_count checklist_pass_rate reminder_of merged_reminder
    aggregate critique_to_hook_result strip join next_stage_after
run_ends = refl

stopped_hands_on_example :
    (◌≡◌ {A = ℕ} 2 2) × (get_reminder at_end.reminders coder ≡ reminder_of last_report)
unfolding next_stage_after
stopped_hands_on_example =
    stopped_hands_on services (modeler_loop 2) 0 2 2 start after_rounds at_end last_report coder
      rounds_stop run_ends refl (λ e. cc)
