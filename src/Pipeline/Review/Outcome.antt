-- ===== src/Pipeline/Review/Outcome.antt =====
-- pipeline.py: what `_review_and_maybe_revise` returns, what it raises, and when it leaves a
-- reminder for the next stage.
use mathodology.Prelude.{
  ℕ, zero, suc, ◌+◌, ◌≤◌, ◌≡◌, refl, inl, inr, subst, ap, ◌∙◌, Option, Bool, true, false, ◌∷◌,
  arith, if◌then◌else◌, Bool-cases,
}
use mathodology.Exec.{Error, is_agent_error, Result, ok, err, Exec, pure, continue}
use mathodology.Float.{Float}
use mathodology.Contracts.{CritiqueReport}
use mathodology.Events.{EventKind, Payload, AgentName}
use mathodology.Pipeline.Policy.{critique_requires_revision}
use mathodology.Pipeline.State.{RunState, Services, emit_event, snapshot, delta, reviewed, revised}
use mathodology.Pipeline.Review.{
  Ending, artifact, Loop, Turn, finished, again, max_rounds, spent_so_far, over_budget, proceed,
  start_tracker, review_in, revise_in, re_review, after_revision, turn, rounds, reviewed_rounds,
  judge,
}

-- `b` is what `n` successful revisions of the producer make of `a`, each of the one before.
pub data Revised {Num W A : Type 0} (l : Loop Num W A) (a : A) : ℕ → A → Type 0 where
  unrevised : Revised l a zero a
  revised_by :
      {n : ℕ} {b c : A}
      → Revised l a n b
      → (report : CritiqueReport Num) (w w' : W) → l.revise b report w ≡ (ok c, w')
      → Revised l a (suc n) c

-- What may leave the function as an exception: whatever the Critic's review raises, whatever an event
-- raises, and of what a revision raises all that is no `AgentError`.
pub record Raises {Num W A : Type 0} ⦃fl : Float Num⦄ (sv : Services Num W) (l : Loop Num W A)
    (E : Error → Type 0) : Type 0 where
  pub review_raises :
      (a : A) (round : ℕ) (w : W) (e : Error)
      → (l.review l.target a round (max_rounds sv l) w).0 ≡ err e
      → E e
  pub revise_raises :
      (a : A) (report : CritiqueReport Num) (w : W) (e : Error)
      → (l.revise a report w).0 ≡ err e
      → is_agent_error e ≡ false
      → E e
  pub emit_raises :
      (kind : EventKind) (payload : Payload) (agent : Option AgentName) (s : RunState Num W)
      (e : Error)
      → (emit_event sv kind payload agent s).0 ≡ err e
      → E e

-- A call from `s` ends in a result that satisfies `Q`, with the reminders as they were, or raises
-- what satisfies `E`.
abbrev pub Post :
    {Num W B : Type 0}
    → (Error → Type 0)
    → (B → Type 0)
    → RunState Num W
    → Result B × RunState Num W
    → Type 0
Post E Q s (ok b, s') = Q b × (s'.reminders ≡ s.reminders)
Post E Q s (err e, s') = E e

-- `a` is made from the output by at most `k` revisions.
abbrev pub Comes : {Num W A : Type 0} → Loop Num W A → A → ℕ → A → Type 0
Comes l output k a = (n : ℕ) × (n ≤ k) × Revised l output n a

abbrev TurnFrom : {Num W A : Type 0} → Loop Num W A → A → ℕ → Turn Num A → Type 0
TurnFrom l output k (finished e) = Comes l output k (artifact e)
TurnFrom l output k (again a r x) = Comes l output k a

abbrev pub EndFrom : {Num W A : Type 0} → Loop Num W A → A → ℕ → Ending Num A → Type 0
EndFrom l output k e = Comes l output k (artifact e)

module _ {Num W A : Type 0} ⦃fl : Float Num⦄ (sv : Services Num W) (l : Loop Num W A)
    (E : Error → Type 0) (raises : Raises sv l E) where
  module _ {B C : Type 0} (Q : B → Type 0) (R : C → Type 0) (s : RunState Num W) where
    Post-continue :
        (f : B → Exec (RunState Num W) C) (p : Result B × RunState Num W)
        → Post E Q s p
        → ((b : B) (s' : RunState Num W) → Q b → s'.reminders ≡ s.reminders → Post E R s (f b s'))
        → Post E R s (continue f p.0 p.1)
    Post-continue f (ok b, s') h k = k b s' h.0 h.1
    Post-continue f (err e, s') h k = h

  Post-if :
      {B : Type 0} (Q : B → Type 0) (s s' : RunState Num W) (c : Bool)
      (m n : Exec (RunState Num W) B)
      → (c ≡ true → Post E Q s (m s'))
      → (c ≡ false → Post E Q s (n s'))
      → Post E Q s ((if c then m else n) s')
  Post-if Q s s' true m n h k = h refl
  Post-if Q s s' false m n h k = k refl

  abbrev Any : {B : Type 0} → B → Type 0
  Any b = Unit

  spent-Post : (x : Num) (s : RunState Num W) → Post {B = Num} E Any s (spent_so_far sv l x s)
  unfolding spent_so_far delta
  spent-Post x s =
      Post-if {B = Num} Any s s l.tracked (delta sv) (pure x) (λ e. (tt, refl)) (λ e. (tt, refl))

  ask_review :
      (a : A) (round : ℕ) (s : RunState Num W) (p : Result (CritiqueReport Num) × W)
      → ((e : Error) → p.0 ≡ err e → E e)
      → Post {B = CritiqueReport Num} E Any s
          (p.0, record s { world = p.1; calls = reviewed l.target round ∷ s.calls })
  ask_review a round s (ok r, w) h = (tt, refl)
  ask_review a round s (err e, w) h = h e refl

  review-Post :
      (round : ℕ) (a : A) (s : RunState Num W)
      → Post {B = CritiqueReport Num} E Any s (review_in sv l round a s)
  unfolding review_in
  review-Post round a s =
      ask_review a round s (l.review l.target a round (max_rounds sv l) s.world)
        (raises.review_raises a round s.world)

  shift :
      {B : Type 0} (Q : B → Type 0) (s s' : RunState Num W) (p : Result B × RunState Num W)
      → s'.reminders ≡ s.reminders
      → Post E Q s' p
      → Post E Q s p
  shift Q s s' (ok b, s'') kept h = (h.0, h.1 ∙ kept)
  shift Q s s' (err e, s'') kept h = h

  module _ (output : A) where
    Comes-le : {k k' : ℕ} (a : A) → k ≤ k' → Comes l output k a → Comes l output k' a
    Comes-le a le (n, few, made) = (n, omega arith, made)

    judge-Post :
        (k : ℕ) (a : A) (report : CritiqueReport Num) (x : Num)
        → Comes l output k a
        → TurnFrom l output k (judge sv l a report x)
    judge-Post k a report x h = elim (Bool-cases (critique_requires_revision report l.policy)) [
      | inl e ↦ rw e h
      | inr e ↦ rw e h
    ]

    re_review-Post :
        (k round : ℕ) (a : A) (report : CritiqueReport Num) (x : Num) (s : RunState Num W)
        → Comes l output k a
        → Post E (TurnFrom l output k) s (re_review sv l round a report x s)
    unfolding re_review
    re_review-Post k round a report x s h =
        Post-continue {B = Num} Any (TurnFrom l output k) s _ (spent_so_far sv l x s)
          (spent-Post x s)
          λ actual s' u kept.
            Post-if (TurnFrom l output k) s s' (over_budget sv l actual l.review_cost) _ _
              (λ e. (h, kept))
              λ e.
                Post-continue {B = CritiqueReport Num} Any (TurnFrom l output k) s _
                  (review_in sv l round a s')
                  (shift {B = CritiqueReport Num} Any s s' (review_in sv l round a s') kept
                    (review-Post round a s'))
                  λ report' s'' v kept'. (judge-Post k a report' (fl.add x l.review_cost) h, kept')

    attempt-Post :
        (k round : ℕ) (actual : Num) (a : A) (report : CritiqueReport Num) (x : Num)
        (s : RunState Num W) (p : Result A × W)
        → l.revise a report s.world ≡ p
        → Comes l output k a
        → Post E (TurnFrom l output (k + 1)) s (
            after_revision sv l round a report x p.0
              (record s { world = p.1; calls = revised l.target round actual ∷ s.calls }))
    attempt-Post k round actual a report x s (ok c, w) e (n, few, made) =
        let s' = record s { world = w; calls = revised l.target round actual ∷ s.calls } in
        shift (TurnFrom l output (k + 1)) s s' _ refl (
          re_review-Post (k + 1) round c report (fl.add x l.revision_cost) s'
            (suc n, omega arith, revised_by made report s.world w e))
    attempt-Post k round actual a report x s (err e, w) eq h =
        elim (Bool-cases (is_agent_error e)) [
          | inl agent ↦ rw agent (Comes-le a (omega arith) h, refl)
          | inr foreign ↦
              rw foreign (raises.revise_raises a report s.world e (ap (λ p. p.0) eq) foreign)
        ]

    turn-Post :
        (k round : ℕ) (a : A) (report : CritiqueReport Num) (x : Num) (s : RunState Num W)
        → Comes l output k a
        → Post E (TurnFrom l output (k + 1)) s (turn sv l round a report x s)
    unfolding turn revise_in
    turn-Post k round a report x s h =
        Post-continue {B = Num} Any (TurnFrom l output (k + 1)) s _ (spent_so_far sv l x s)
          (spent-Post x s)
          λ actual s' u kept.
            Post-if (TurnFrom l output (k + 1)) s s' (over_budget sv l actual l.revision_cost) _ _
              (λ e. (Comes-le a (omega arith) h, kept))
              λ e.
                shift (TurnFrom l output (k + 1)) s s' _ kept
                  (attempt-Post k round actual a report x s' (l.revise a report s'.world) refl h)

    proceed-Post :
        (j k round : ℕ) (s : RunState Num W)
        → ((a : A) (report : CritiqueReport Num) (x : Num) (s : RunState Num W)
            → Comes l output (k + 1) a
            → Post E (EndFrom l output (k + 1 + j)) s (rounds sv l j (round + 1) a report x s))
        → (t : Turn Num A) (s' : RunState Num W) → TurnFrom l output (k + 1) t
        → s'.reminders ≡ s.reminders
        → Post E (EndFrom l output (k + suc j)) s (proceed sv l (rounds sv l j (round + 1)) t s')
    proceed-Post j k round s ih (finished e) s' h kept =
        (Comes-le (artifact e) (omega arith) h, kept)
    proceed-Post j k round s ih (again a report x) s' h kept =
        let deeper : k + suc j ≡ k + 1 + j = omega arith in
        rw deeper (shift (EndFrom l output (k + 1 + j)) s s' _ kept (ih a report x s' h))

    rounds-Post :
        (j k round : ℕ) (a : A) (report : CritiqueReport Num) (x : Num) (s : RunState Num W)
        → Comes l output k a
        → Post E (EndFrom l output (k + j)) s (rounds sv l j round a report x s)
    unfolding rounds
    rounds-Post zero k round a report x s h = (Comes-le a (omega arith) h, refl)
    rounds-Post (suc j) k round a report x s h =
        Post-continue (TurnFrom l output (k + 1)) (EndFrom l output (k + suc j)) s _
          (turn sv l round a report x s) (turn-Post k round a report x s h)
          (proceed-Post j k round s (rounds-Post j (k + 1) (round + 1)))

    all_rounds-Post :
        (report : CritiqueReport Num) (s : RunState Num W)
        → Post E
            (EndFrom l output (max_rounds sv l))
            s
            (rounds sv l (max_rounds sv l) 1 output report l.review_cost s)
    all_rounds-Post report s =
        let from_none : 0 + max_rounds sv l ≡ max_rounds sv l = omega arith in
        subst
          (λ n.
            Post E (EndFrom l output n) s
              (rounds sv l (max_rounds sv l) 1 output report l.review_cost s))
          from_none
          (rounds-Post (max_rounds sv l) 0 1 output report l.review_cost s
            (0, omega arith, unrevised))

    start-Post : (s : RunState Num W) → Post {B = Unit {0}} E Any s (start_tracker sv l s)
    unfolding snapshot
    start-Post s =
        Post-if {B = Unit {0}} Any s s l.tracked (snapshot sv) (pure tt) (λ e. (tt, refl))
          (λ e. (tt, refl))

    pub reviewed_rounds-Post :
        (s : RunState Num W)
        → Post E (EndFrom l output (max_rounds sv l)) s (reviewed_rounds sv l output s)
    unfolding reviewed_rounds
    reviewed_rounds-Post s =
        Post-continue {B = Unit {0}} Any (EndFrom l output (max_rounds sv l)) s _
          (start_tracker sv l s) (start-Post s)
          λ t s' u kept.
            Post-continue {B = CritiqueReport Num} Any (EndFrom l output (max_rounds sv l)) s _
              (review_in sv l 0 output s')
              (shift {B = CritiqueReport Num} Any s s' (review_in sv l 0 output s') kept
                (review-Post 0 output s'))
              λ report s'' v kept'.
                Post-if (EndFrom l output (max_rounds sv l)) s s''
                  (critique_requires_revision report l.policy) _ _
                  (λ e.
                    shift (EndFrom l output (max_rounds sv l)) s s'' _ kept'
                      (all_rounds-Post report s''))
                  (λ e. ((0, omega arith, unrevised), kept'))
