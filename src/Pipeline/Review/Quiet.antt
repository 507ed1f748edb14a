-- ===== src/Pipeline/Review/Quiet.antt =====
-- pipeline.py: `_review_and_maybe_revise` runs no agent of the order and ends no run.
use mathodology.Prelude.{ℕ, zero, suc, ◌+◌, refl, Option, none, some}
use mathodology.Exec.{is_agent_error, Result, ok, err, Exec}
use mathodology.Float.{Float}
use mathodology.Text.{Text, truthy}
use mathodology.Contracts.{Stage, CritiqueReport}
use mathodology.Events.{log}
use mathodology.Pipeline.Policy.{
  critique_requires_revision, critique_should_fail_run, next_stage_after,
}
use mathodology.Pipeline.State.{RunState, Services, snapshot, delta}
use mathodology.Pipeline.Review.{
  Ending, accepted, stopped, Loop, Turn, finished, again, max_rounds, spent_so_far, over_budget,
  proceed, start_tracker, hand_on, reminder_of, review_in, revise_in, re_review, after_revision,
  attempt, turn, rounds, reviewed_rounds, settle, warn, leave_reminder, review_and_maybe_revise,
}
use mathodology.Pipeline.Quiet.{Quiet, Quiet-pure, Quiet-if, Quiet-bind, emit-Quiet}

module _ {Num W : Type 0} ⦃fl : Float Num⦄ (sv : Services Num W) where
  module _ {A : Type 0} (l : Loop Num W A) where
    spent-Quiet : (x : Num) → Quiet (spent_so_far sv l x)
    unfolding spent_so_far delta
    spent-Quiet x = Quiet-if l.tracked (record { keeps = λ s. refl }) (Quiet-pure x)

    review-Quiet : (round : ℕ) (a : A) → Quiet (review_in sv l round a)
    unfolding review_in
    review-Quiet round a = record { keeps = λ s. refl }

    re_review-Quiet :
        (round : ℕ) (a : A) (r : CritiqueReport Num) (x : Num) → Quiet (re_review sv l round a r x)
    unfolding re_review
    re_review-Quiet round a r x = Quiet-bind _ (spent-Quiet x) λ actual.
        Quiet-if (over_budget sv l actual l.review_cost) (Quiet-pure _)
          (Quiet-bind _ (review-Quiet round a) λ r'. Quiet-pure _)

    after_revision-Quiet :
        (round : ℕ) (a : A) (r : CritiqueReport Num) (x : Num) (reply : Result A)
        → Quiet (after_revision sv l round a r x reply)
    after_revision-Quiet round a r x (ok b) = re_review-Quiet round b r _
    after_revision-Quiet round a r x (err e) =
        Quiet-if (is_agent_error e) (record { keeps = λ s. refl }) (record { keeps = λ s. refl })

    attempt-Quiet :
        (round : ℕ) (y : Num) (a : A) (r : CritiqueReport Num) (x : Num)
        → Quiet (attempt sv l round y a r x)
    unfolding revise_in
    attempt-Quiet round y a r x = record {
      keeps = λ s.
          (after_revision-Quiet round a r x (revise_in sv l round y a r s).0).keeps
            (revise_in sv l round y a r s).1;
    }

    turn-Quiet :
        (round : ℕ) (a : A) (r : CritiqueReport Num) (x : Num) → Quiet (turn sv l round a r x)
    unfolding turn
    turn-Quiet round a r x = Quiet-bind _ (spent-Quiet x) λ actual.
        Quiet-if (over_budget sv l actual l.revision_cost) (Quiet-pure _)
          (attempt-Quiet round actual a r x)

    proceed-Quiet :
        (next : A → CritiqueReport Num → Num → Exec (RunState Num W) (Ending Num A))
        → ((a : A) (r : CritiqueReport Num) (x : Num) → Quiet (next a r x))
        → (t : Turn Num A) → Quiet (proceed sv l next t)
    proceed-Quiet next h (finished e) = Quiet-pure e
    proceed-Quiet next h (again a r x) = h a r x

    rounds-Quiet :
        (k round : ℕ) (a : A) (r : CritiqueReport Num) (x : Num) → Quiet (rounds sv l k round a r x)
    unfolding rounds
    rounds-Quiet zero round a r x = Quiet-pure _
    rounds-Quiet (suc k) round a r x =
        Quiet-bind _ (turn-Quiet round a r x)
          (proceed-Quiet (rounds sv l k (round + 1)) (rounds-Quiet k (round + 1)))

    start_tracker-Quiet : Quiet (start_tracker sv l)
    unfolding snapshot
    start_tracker-Quiet = Quiet-if l.tracked (record { keeps = λ s. refl }) (Quiet-pure tt)

    pub reviewed_rounds-Quiet : (a : A) → Quiet (reviewed_rounds sv l a)
    unfolding reviewed_rounds
    reviewed_rounds-Quiet a = Quiet-bind _ start_tracker-Quiet λ t.
        Quiet-bind _ (review-Quiet 0 a) λ r.
          Quiet-if (critique_requires_revision r l.policy)
            (rounds-Quiet (max_rounds sv l) 1 a r l.review_cost) (Quiet-pure _)

    pub warn-Quiet : (r : CritiqueReport Num) → Quiet (warn sv l r)
    unfolding warn
    warn-Quiet r =
        Quiet-if (critique_should_fail_run r) (emit-Quiet sv log _ _ refl) (Quiet-pure tt)

    hand_on-Quiet : (next : Option Stage) (t : Text) → Quiet (hand_on sv l next t)
    hand_on-Quiet none t = record { keeps = λ s. refl }
    hand_on-Quiet (some next) t = record { keeps = λ s. refl }

    leave-Quiet : (t : Text) → Quiet (leave_reminder sv l t)
    unfolding leave_reminder
    leave-Quiet t =
        Quiet-if (truthy t)
          (Quiet-bind _ (hand_on-Quiet (next_stage_after l.target) t)
            λ u. emit-Quiet sv log _ _ refl)
          (Quiet-pure tt)

    settle-Quiet : (e : Ending Num A) → Quiet (settle sv l e)
    unfolding settle
    settle-Quiet (accepted a) = Quiet-pure a
    settle-Quiet (stopped a r) =
        Quiet-bind _ (warn-Quiet r)
          λ t. Quiet-bind _ (leave-Quiet (reminder_of r)) λ u. Quiet-pure a

    pub review_and_maybe_revise-Quiet : (a : A) → Quiet (review_and_maybe_revise sv l a)
    unfolding review_and_maybe_revise
    review_and_maybe_revise-Quiet a = Quiet-bind _ (reviewed_rounds-Quiet a) settle-Quiet
