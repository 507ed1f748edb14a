-- ===== src/Pipeline/Review/Handover.antt =====
-- pipeline.py: the end of `_review_and_maybe_revise`: the warning, the reminder, and the result.
use mathodology.Prelude.{
  ℕ, ◌≤◌, ◌≡◌, ◌⊎◌, refl, inl, inr, ap, ◌∙◌, Option, none, some, true, false, if◌then◌else◌,
  Bool-cases,
}
use mathodology.Exec.{Error, Result, ok, err, Exec, ◌>>=◌, continue}
use mathodology.Float.{Float}
use mathodology.Text.{Text, truthy}
use mathodology.Contracts.{Stage, CritiqueReport}
use mathodology.Events.{EventKind, Payload, AgentName}
use mathodology.Pipeline.Policy.{max_rounds_for, critique_should_fail_run, next_stage_after}
use mathodology.Pipeline.State.{RunState, Services, Reminders, emit_event, insert}
use mathodology.Pipeline.Review.{
  Ending, accepted, stopped, artifact, Loop, max_rounds, hand_on, reminder_of, reviewed_rounds,
  settle, warn, leave_reminder, review_and_maybe_revise,
}
use mathodology.Pipeline.Review.Outcome.{Raises, Revised, Post, EndFrom, reviewed_rounds-Post}

-- The reminders once one more is handed on.
abbrev pub handed_on : Option Stage → Text → Reminders → Reminders
handed_on none reminder old = old
handed_on (some next) reminder old = if truthy reminder then insert next reminder old else old

-- The call returns a result and reminders that satisfy `Q`, or raises what satisfies `E`.
abbrev pub Ends :
    {Num W B : Type 0}
    → (Error → Type 0)
    → (B → Reminders → Type 0)
    → Result B × RunState Num W
    → Type 0
Ends E Q (ok b, s') = Q b s'.reminders
Ends E Q (err e, s') = E e

-- The reminders are `rs`.
abbrev pub Left : Reminders → Unit {0} → Reminders → Type 0
Left rs t rs' = rs' ≡ rs

-- What `settle` returns and leaves behind.
abbrev pub Settled :
    {Num W A : Type 0} → Loop Num W A → Reminders → Ending Num A → A → Reminders → Type 0
Settled l old (accepted a) b new = (b ≡ a) × (new ≡ old)
Settled l old (stopped a report) b new =
    (b ≡ a) × (new ≡ handed_on (next_stage_after l.target) (reminder_of report) old)

-- What the whole function returns and leaves behind.
abbrev pub Reviewed : {Num W A : Type 0} → Loop Num W A → A → Reminders → A → Reminders → Type 0
Reviewed {Num} l output old b new =
    (n : ℕ) × (n ≤ max_rounds_for l.policy l.target)
    × Revised l output n b
    × ((new ≡ old)
        ⊎ ((report : CritiqueReport Num) × (new
              ≡ handed_on (next_stage_after l.target) (reminder_of report) old)))

module _ {Num W A : Type 0} ⦃fl : Float Num⦄ (sv : Services Num W) (l : Loop Num W A)
    (E : Error → Type 0) (raises : Raises sv l E) where
  pub Ends-continue :
      {B C : Type 0} (Q : B → Reminders → Type 0) (R : C → Reminders → Type 0)
      (f : B → Exec (RunState Num W) C) (p : Result B × RunState Num W)
      → Ends E Q p
      → ((b : B) (s' : RunState Num W) → Q b s'.reminders → Ends E R (f b s'))
      → Ends E R (continue f p.0 p.1)
  Ends-continue Q R f (ok b, s') h k = k b s' h
  Ends-continue Q R f (err e, s') h k = h

  pub Ends-weaken :
      {B : Type 0} (Q R : B → Reminders → Type 0) (p : Result B × RunState Num W)
      → Ends E Q p
      → ((b : B) (rs : Reminders) → Q b rs → R b rs)
      → Ends E R p
  Ends-weaken Q R (ok b, s') h k = k b s'.reminders h
  Ends-weaken Q R (err e, s') h k = h

  emitted_result :
      (kind : EventKind) (payload : Payload) (agent : Option AgentName) (s : RunState Num W)
      (r : Result (Unit {0})) (s' : RunState Num W)
      → ((e : Error) → r ≡ err e → E e)
      → s'.reminders ≡ s.reminders
      → Ends E (Left s.reminders) (r, s')
  emitted_result kind payload agent s (ok t) s' h kept = kept
  emitted_result kind payload agent s (err e) s' h kept = h e refl

  reminders-emit_event :
      (kind : EventKind) (payload : Payload) (agent : Option AgentName) (s : RunState Num W)
      → (emit_event sv kind payload agent s).1.reminders ≡ s.reminders
  unfolding emit_event
  reminders-emit_event kind payload agent s = refl

  emit-Ends :
      (kind : EventKind) (payload : Payload) (agent : Option AgentName) (s : RunState Num W)
      → Ends E (Left s.reminders) (emit_event sv kind payload agent s)
  emit-Ends kind payload agent s =
      emitted_result kind payload agent s (emit_event sv kind payload agent s).0
        (emit_event sv kind payload agent s).1 (raises.emit_raises kind payload agent s)
        (reminders-emit_event kind payload agent s)

  pub warn-Ends :
      (report : CritiqueReport Num) (s : RunState Num W)
      → Ends E (Left s.reminders) (warn sv l report s)
  unfolding warn
  warn-Ends report s = elim (Bool-cases (critique_should_fail_run report)) [
    | inl e ↦ rw e (emit-Ends _ _ _ s)
    | inr e ↦ rw e
  ]

  hand_on-Ends :
      (next : Option Stage) (reminder : Text) (kind : EventKind) (payload : Payload)
      (agent : Option AgentName) (s : RunState Num W)
      → truthy reminder ≡ true
      → Ends E
          (Left (handed_on next reminder s.reminders))
          ((hand_on sv l next reminder >>= λ t. emit_event sv kind payload agent) s)
  hand_on-Ends none reminder kind payload agent s e = emit-Ends kind payload agent s
  hand_on-Ends (some next) reminder kind payload agent s e =
      rw e
        (emit-Ends kind payload agent (record s { reminders = insert next reminder s.reminders }))

  handed_on_blank :
      (next : Option Stage) (reminder : Text) (old : Reminders)
      → truthy reminder ≡ false
      → old ≡ handed_on next reminder old
  handed_on_blank none reminder old e = refl
  handed_on_blank (some next) reminder old e = rw e

  leave-Ends :
      (reminder : Text) (s : RunState Num W)
      → Ends E
          (Left (handed_on (next_stage_after l.target) reminder s.reminders))
          (leave_reminder sv l reminder s)
  unfolding leave_reminder
  leave-Ends reminder s = elim (Bool-cases (truthy reminder)) [
    | inl e ↦ rw e (hand_on-Ends (next_stage_after l.target) reminder _ _ _ s e)
    | inr e ↦ rw e (handed_on_blank (next_stage_after l.target) reminder s.reminders e)
  ]

  pub settle-Ends :
      (e : Ending Num A) (s : RunState Num W) → Ends E (Settled l s.reminders e) (settle sv l e s)
  unfolding settle
  settle-Ends (accepted a) s = (refl, refl)
  settle-Ends (stopped a report) s =
      Ends-continue (Left s.reminders) (Settled l s.reminders (stopped a report)) _
        (warn sv l report s) (warn-Ends report s)
        λ t s' kept.
          Ends-continue
            (Left (handed_on (next_stage_after l.target) (reminder_of report) s'.reminders))
            (Settled l s.reminders (stopped a report)) _
            (leave_reminder sv l (reminder_of report) s') (leave-Ends (reminder_of report) s')
            λ u s'' left.
              (refl, left ∙ ap (handed_on (next_stage_after l.target) (reminder_of report)) kept)

  Settled-Reviewed :
      (output : A) (old : Reminders) (e : Ending Num A) (s : RunState Num W) (b : A)
      (new : Reminders)
      → (n : ℕ) × (n ≤ max_rounds sv l) × Revised l output n (artifact e)
      → s.reminders ≡ old
      → Settled l s.reminders e b new
      → Reviewed l output old b new
  Settled-Reviewed output old (accepted a) s b new (n, few, made) kept (is_a, left) =
      (n, few, rw is_a made, inl (left ∙ kept))
  Settled-Reviewed output old (stopped a report) s b new (n, few, made) kept (is_a, left) = (
    n,
    few,
    rw is_a made,
    inr (report, left ∙ ap (handed_on (next_stage_after l.target) (reminder_of report)) kept),
  )

  -- `_review_and_maybe_revise` returns what at most `max_rounds` successful revisions in a row
  -- make of the output, and leaves the reminders as they were or hands on that of one report. It
  -- raises nothing but what the Critic's review raises, what an event raises, and what a revision
  -- raises that is no `AgentError`.
  pub review_and_maybe_revise_outcome :
      (output : A) (s : RunState Num W)
      → Ends E (Reviewed l output s.reminders) (review_and_maybe_revise sv l output s)
  unfolding review_and_maybe_revise
  review_and_maybe_revise_outcome output s =
      after_rounds (reviewed_rounds sv l output s) (reviewed_rounds-Post sv l E raises output s)
    where
      after_rounds :
          (p : Result (Ending Num A) × RunState Num W)
          → Post E (EndFrom l output (max_rounds sv l)) s p
          → Ends E (Reviewed l output s.reminders) (continue (settle sv l) p.0 p.1)
      after_rounds (err e, s') h = h
      after_rounds (ok e, s') (made, kept) =
          Ends-weaken (Settled l s'.reminders e) (Reviewed l output s.reminders) (settle sv l e s')
            (settle-Ends e s') (λ b new. Settled-Reviewed output s.reminders e s' b new made kept)
