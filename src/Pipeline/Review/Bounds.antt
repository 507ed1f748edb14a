-- ===== src/Pipeline/Review/Bounds.antt =====
-- pipeline.py: how many reviews and revisions `_review_and_maybe_revise` makes, and at what spend.
use mathodology.Prelude.{
  ℕ, zero, suc, ◌+◌, ◌≤◌, ◌≡◌, refl, Option, none, some, Bool, true, false, List, [], ◌∷◌, arith,
  if◌then◌else◌,
}
use mathodology.Exec.{Error, is_agent_error, Result, ok, err, Exec, pure, raise, ◌>>=◌, continue}
use mathodology.Float.{Float}
use mathodology.Text.{Text, truthy}
use mathodology.Contracts.{Stage, CritiqueReport}
use mathodology.Events.{EventKind, Payload, AgentName}
use mathodology.Pipeline.Policy.{
  critique_requires_revision, critique_should_fail_run, next_stage_after,
}
use mathodology.Pipeline.State.{
  RunState, Services, Call, emitted, polled, bounced, wrote, exported, ran, reviewed, revised,
  emit_event, snapshot, delta,
}
use mathodology.Pipeline.Review.{
  Ending, accepted, stopped, Loop, Turn, finished, again, max_rounds, spent_so_far, over_budget,
  proceed, start_tracker, hand_on, reminder_of, review_in, revise_in, re_review, after_revision,
  turn, rounds, reviewed_rounds, settle, warn, leave_reminder, review_and_maybe_revise,
}

module _ {Num : Type 0} where
  abbrev pub revisions : List (Call Num) → ℕ
  revisions [] = 0
  revisions (revised t r x ∷ cs) = suc (revisions cs)
  revisions (emitted k p a ∷ cs) = revisions cs
  revisions (polled ∷ cs) = revisions cs
  revisions (bounced ∷ cs) = revisions cs
  revisions (wrote f ∷ cs) = revisions cs
  revisions (exported ∷ cs) = revisions cs
  revisions (ran t ∷ cs) = revisions cs
  revisions (reviewed t r ∷ cs) = revisions cs

  abbrev pub reviews : List (Call Num) → ℕ
  reviews [] = 0
  reviews (reviewed t r ∷ cs) = suc (reviews cs)
  reviews (revised t r x ∷ cs) = reviews cs
  reviews (emitted k p a ∷ cs) = reviews cs
  reviews (polled ∷ cs) = reviews cs
  reviews (bounced ∷ cs) = reviews cs
  reviews (wrote f ∷ cs) = reviews cs
  reviews (exported ∷ cs) = reviews cs
  reviews (ran t ∷ cs) = reviews cs

module _ {Num W A : Type 0} ⦃fl : Float Num⦄ (sv : Services Num W) (l : Loop Num W A) where
  -- Every revision was asked for when the spend so far and its estimate fitted the budget.
  abbrev pub InBudget : List (Call Num) → Type 0
  InBudget [] = Unit
  InBudget (revised t r x ∷ cs) = (over_budget sv l x l.revision_cost ≡ false) × InBudget cs
  InBudget (emitted k p a ∷ cs) = InBudget cs
  InBudget (polled ∷ cs) = InBudget cs
  InBudget (bounced ∷ cs) = InBudget cs
  InBudget (wrote f ∷ cs) = InBudget cs
  InBudget (exported ∷ cs) = InBudget cs
  InBudget (ran t ∷ cs) = InBudget cs
  InBudget (reviewed t r ∷ cs) = InBudget cs

  -- `m` makes at most `a` revisions, each within the budget, and at most `b` reviews.
  pub record Adds {B : Type 0} (a b : ℕ) (m : Exec (RunState Num W) B) : Type 0 where
    pub revises : (s : RunState Num W) → revisions (m s).1.calls ≤ revisions s.calls + a
    pub appraises : (s : RunState Num W) → reviews (m s).1.calls ≤ reviews s.calls + b
    pub budget : (s : RunState Num W) → InBudget s.calls → InBudget (m s).1.calls

  module _ {B : Type 0} where
    pub Adds-pure : (x : B) → Adds 0 0 (pure x)
    Adds-pure x = record {
      revises = λ s. omega arith;
      appraises = λ s. omega arith;
      budget = λ s h. h;
    }

    Adds-raise : (e : Error) → Adds 0 0 (raise {A = B} e)
    Adds-raise e = record {
      revises = λ s. omega arith;
      appraises = λ s. omega arith;
      budget = λ s h. h;
    }

    Adds-weaken :
        {a b a' b' : ℕ} {m : Exec (RunState Num W) B} → a ≤ a' → b ≤ b' → Adds a b m → Adds a' b' m
    Adds-weaken p q h = record {
      revises = λ s. omega (arith, h.revises s);
      appraises = λ s. omega (arith, h.appraises s);
      budget = h.budget;
    }

    pub Adds-if :
        {a b : ℕ} (c : Bool) {m n : Exec (RunState Num W) B}
        → (c ≡ true → Adds a b m)
        → (c ≡ false → Adds a b n)
        → Adds a b (if c then m else n)
    Adds-if true h k = h refl
    Adds-if false h k = k refl

  module _ {B C : Type 0} where
    -- A call, and what is done with its result, raised or not.
    Adds-then :
        {a b c d : ℕ} {m : Exec (RunState Num W) B} (g : Result B → Exec (RunState Num W) C)
        → Adds a b m
        → ((r : Result B) → Adds c d (g r))
        → Adds (a + c) (b + d) (λ s. let (r, s') = m s in g r s')
    Adds-then {m} g h k = record {
      revises = λ s. omega (arith, h.revises s, (k (m s).0).revises (m s).1);
      appraises = λ s. omega (arith, h.appraises s, (k (m s).0).appraises (m s).1);
      budget = λ s w. (k (m s).0).budget (m s).1 (h.budget s w);
    }

    continue-Adds :
        {c d : ℕ} (f : B → Exec (RunState Num W) C)
        → ((x : B) → Adds c d (f x))
        → (r : Result B) → Adds c d (continue f r)
    continue-Adds f h (ok x) = h x
    continue-Adds f h (err e) = Adds-weaken (omega arith) (omega arith) (Adds-raise e)

    pub Adds-bind :
        {a b c d : ℕ} {m : Exec (RunState Num W) B} (f : B → Exec (RunState Num W) C)
        → Adds a b m
        → ((x : B) → Adds c d (f x))
        → Adds (a + c) (b + d) (m >>= f)
    Adds-bind f h k = Adds-then (continue f) h (continue-Adds f k)

  Adds-none : {B : Type 0} {a b : ℕ} {m : Exec (RunState Num W) B} → Adds 0 0 m → Adds a b m
  Adds-none h = Adds-weaken (omega arith) (omega arith) h

  spent-Adds : (x : Num) → Adds 0 0 (spent_so_far sv l x)
  unfolding spent_so_far delta
  spent-Adds x =
      Adds-if l.tracked
        (λ e. record {
          revises = λ s. omega arith;
          appraises = λ s. omega arith;
          budget = λ s h. h;
        })
        (λ e. Adds-pure x)

  review_in-Adds : (round : ℕ) (current : A) → Adds 0 1 (review_in sv l round current)
  unfolding review_in
  review_in-Adds round current = record {
    revises = λ s. omega arith;
    appraises = λ s. omega arith;
    budget = λ s h. h;
  }

  revise_in-Adds :
      (round : ℕ) (actual : Num) (current : A) (report : CritiqueReport Num)
      → over_budget sv l actual l.revision_cost ≡ false
      → Adds 1 0 (revise_in sv l round actual current report)
  unfolding revise_in
  revise_in-Adds round actual current report fits = record {
    revises = λ s. omega arith;
    appraises = λ s. omega arith;
    budget = λ s h. (fits, h);
  }

  re_review-Adds :
      (round : ℕ) (current : A) (report : CritiqueReport Num) (x : Num)
      → Adds 0 1 (re_review sv l round current report x)
  unfolding re_review
  re_review-Adds round current report x = Adds-bind _ (spent-Adds x) λ actual.
      Adds-if (over_budget sv l actual l.review_cost) (λ e. Adds-none (Adds-pure _))
        λ e. Adds-bind _ (review_in-Adds round current) λ report'. Adds-pure _

  after_revision-Adds :
      (round : ℕ) (current : A) (report : CritiqueReport Num) (x : Num) (r : Result A)
      → Adds 0 1 (after_revision sv l round current report x r)
  after_revision-Adds round current report x (ok a) =
      re_review-Adds round a report (fl.add x l.revision_cost)
  after_revision-Adds round current report x (err e) =
      Adds-none (Adds-if (is_agent_error e) (λ h. Adds-pure _) (λ h. Adds-raise e))

  turn-Adds :
      (round : ℕ) (current : A) (report : CritiqueReport Num) (x : Num)
      → Adds 1 1 (turn sv l round current report x)
  unfolding turn
  turn-Adds round current report x = Adds-bind _ (spent-Adds x) λ actual.
      Adds-if (over_budget sv l actual l.revision_cost) (λ e. Adds-none (Adds-pure _))
        λ e.
          Adds-then _ (revise_in-Adds round actual current report e)
            (after_revision-Adds round current report x)

  proceed-Adds :
      {k : ℕ} (next : A → CritiqueReport Num → Num → Exec (RunState Num W) (Ending Num A))
      → ((a : A) (r : CritiqueReport Num) (x : Num) → Adds k k (next a r x))
      → (t : Turn Num A) → Adds k k (proceed sv l next t)
  proceed-Adds next h (finished e) = Adds-none (Adds-pure e)
  proceed-Adds next h (again a r x) = h a r x

  rounds-Adds :
      (k round : ℕ) (current : A) (report : CritiqueReport Num) (x : Num)
      → Adds k k (rounds sv l k round current report x)
  unfolding rounds
  rounds-Adds zero round current report x = Adds-pure _
  rounds-Adds (suc k) round current report x = Adds-weaken (omega arith) (omega arith) (
      Adds-bind _ (turn-Adds round current report x)
        (proceed-Adds (rounds sv l k (round + 1)) (rounds-Adds k (round + 1))))

  start_tracker-Adds : Adds 0 0 (start_tracker sv l)
  unfolding snapshot
  start_tracker-Adds =
      Adds-if l.tracked
        (λ e. record {
          revises = λ s. omega arith;
          appraises = λ s. omega arith;
          budget = λ s h. h;
        })
        (λ e. Adds-pure tt)

  pub reviewed_rounds-Adds :
      (output : A) → Adds (max_rounds sv l) (max_rounds sv l + 1) (reviewed_rounds sv l output)
  unfolding reviewed_rounds
  reviewed_rounds-Adds output = Adds-weaken (omega arith) (omega arith) (
      Adds-bind _ start_tracker-Adds λ t. Adds-bind _ (review_in-Adds 0 output) λ report.
        Adds-if (critique_requires_revision report l.policy)
          (λ e. rounds-Adds (max_rounds sv l) 1 output report l.review_cost)
          (λ e. Adds-none (Adds-pure _)))

  emit_event-Adds :
      (kind : EventKind) (payload : Payload) (agent : Option AgentName)
      → Adds 0 0 (emit_event sv kind payload agent)
  unfolding emit_event
  emit_event-Adds kind payload agent = record {
    revises = λ s. omega arith;
    appraises = λ s. omega arith;
    budget = λ s h. h;
  }

  pub warn-Adds : (report : CritiqueReport Num) → Adds 0 0 (warn sv l report)
  unfolding warn
  warn-Adds report =
      Adds-if (critique_should_fail_run report) (λ e. emit_event-Adds _ _ _) (λ e. Adds-pure tt)

  hand_on-Adds : (next : Option Stage) (reminder : Text) → Adds 0 0 (hand_on sv l next reminder)
  hand_on-Adds none reminder = Adds-pure tt
  hand_on-Adds (some next) reminder = record {
    revises = λ s. omega arith;
    appraises = λ s. omega arith;
    budget = λ s h. h;
  }

  leave_reminder-Adds : (reminder : Text) → Adds 0 0 (leave_reminder sv l reminder)
  unfolding leave_reminder
  leave_reminder-Adds reminder =
      Adds-if (truthy reminder)
        (λ e.
          Adds-bind _ (hand_on-Adds (next_stage_after l.target) reminder)
            λ t. emit_event-Adds _ _ _)
        (λ e. Adds-pure tt)

  settle-Adds : (e : Ending Num A) → Adds 0 0 (settle sv l e)
  unfolding settle
  settle-Adds (accepted a) = Adds-pure a
  settle-Adds (stopped a report) =
      Adds-bind _ (warn-Adds report)
        λ t. Adds-bind _ (leave_reminder-Adds (reminder_of report)) λ u. Adds-pure a

  -- One run of `_review_and_maybe_revise` asks for at most `max_rounds` revisions and one review
  -- more, however it ends; and it asks for each revision only when the spend that it read just
  -- before, with the estimate of the revision, did not exceed the budget.
  pub review_and_maybe_revise_bounds :
      (output : A) (s : RunState Num W)
      → InBudget s.calls
      → let s' = (review_and_maybe_revise sv l output s).1 in
        (revisions s'.calls ≤ revisions s.calls + max_rounds sv l)
        × (reviews s'.calls ≤ reviews s.calls + max_rounds sv l + 1)
        × InBudget s'.calls
  unfolding review_and_maybe_revise
  review_and_maybe_revise_bounds output s h =
      let all = Adds-bind _ (reviewed_rounds-Adds output) settle-Adds in
      (omega (arith, all.revises s), omega (arith, all.appraises s), all.budget s h)
