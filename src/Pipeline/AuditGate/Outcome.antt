-- ===== src/Pipeline/AuditGate/Outcome.antt =====
-- pipeline.py: which paper `_run_audit_and_maybe_revise` ships, and what it raises.
use mathodology.Prelude.{
  ◌≡◌, ◌≢◌, refl, ap, if◌then◌else◌, ◌⊎◌, inl, inr, Option, false, List, [], ◌∷◌, Bool-cases,
}
use mathodology.Exec.{Error, is_agent_error, Result, ok, err, Exec, pure, ◌>>=◌, continue}
use mathodology.Float.{Float}
use mathodology.Contracts.{CritiqueReport}
use mathodology.Contracts.Artifacts.{PaperDraft}
use mathodology.Events.{AgentName, EventKind, Payload}
use mathodology.Audit.{AuditFinding, AuditReport, DispatchTarget, passed, blocking_for}
use mathodology.Pipeline.State.{RunState, Services, ask, bounced, emit_event, total, poll}
use mathodology.Pipeline.AuditGate.{
  Gate, audit_of, fake_critique, surface, refresh_total, audit_now, log_second, after_bounce,
  bounce, dispatch, log_stage_done, world_now, first_audit, run_audit_and_maybe_revise,
}

-- What may leave the gate as an exception: what an event, the poll of the cancel flag or a revision
-- raises, save an `AgentError` of the revision.
pub record GateRaises {Num W : Type 0} ⦃fl : Float Num⦄ (sv : Services Num W) (g : Gate Num W)
    (E : Error → Type 0) : Type 0 where
  pub event_raises :
      (kind : EventKind) (payload : Payload) (agent : Option AgentName) (s : RunState Num W)
      (e : Error)
      → (emit_event sv kind payload agent s).0 ≡ err e
      → E e
  pub poll_raises : (s : RunState Num W) (e : Error) → (poll sv s).0 ≡ err e → E e
  pub revise_raises :
      (paper : PaperDraft) (report : CritiqueReport Num) (w : W) (e : Error)
      → (g.revise paper report w).0 ≡ err e
      → is_agent_error e ≡ false
      → E e

-- The result satisfies `Q`, or what is raised satisfies `E`.
abbrev pub Yields :
    {Num W B : Type 0} → (Error → Type 0) → (B → Type 0) → Result B × RunState Num W → Type 0
Yields E Q (ok b, s) = Q b
Yields E Q (err e, s) = E e

-- `shipped` is the paper itself, or the Writer's revision of it in answer to an audit of it that
-- has blocking findings for the Writer.
abbrev pub Ships :
    {Num W : Type 0}
    → ⦃fl : Float Num⦄ → Services Num W
    → Gate Num W
    → PaperDraft
    → PaperDraft
    → Type 0
Ships {Num} {W} sv g paper shipped =
    (shipped ≡ paper)
    ⊎ ((w : W) × (w₁ : W) × (w₂ : W) × (blocking_for DispatchTarget.writer (audit_of sv g paper w)
          ≢ [])
        × (g.revise paper (fake_critique (audit_of sv g paper w)) w₁ ≡ (ok shipped, w₂)))

module _ {Num W : Type 0} ⦃fl : Float Num⦄ (sv : Services Num W) (g : Gate Num W)
    (E : Error → Type 0) (raises : GateRaises sv g E) where
  module _ {B C : Type 0} (Q : B → Type 0) (R : C → Type 0) where
    Yields-continue :
        (f : B → Exec (RunState Num W) C) (p : Result B × RunState Num W)
        → Yields E Q p
        → ((b : B) (s : RunState Num W) → Q b → Yields E R (f b s))
        → Yields E R (continue f p.0 p.1)
    Yields-continue f (ok b, s) h k = k b s h
    Yields-continue f (err e, s) h k = h

  abbrev Done : {B : Type 0} → B → Type 0
  Done b = Unit

  plainly :
      {B : Type 0} (r : Result B) (s : RunState Num W)
      → ((e : Error) → r ≡ err e → E e)
      → Yields E (Done {B = B}) (r, s)
  plainly (ok b) s h = tt
  plainly (err e) s h = h e refl

  event-Yields :
      (kind : EventKind) (payload : Payload) (agent : Option AgentName) (s : RunState Num W)
      → Yields E (Done {B = Unit {0}}) (emit_event sv kind payload agent s)
  event-Yields kind payload agent s =
      plainly (emit_event sv kind payload agent s).0 (emit_event sv kind payload agent s).1
        (raises.event_raises kind payload agent s)

  surface-Yields :
      (fs : List AuditFinding) (s : RunState Num W)
      → Yields E (Done {B = Unit {0}}) (surface sv g fs s)
  unfolding surface
  surface-Yields [] s = tt
  surface-Yields (f ∷ fs) s =
      Yields-continue (Done {B = Unit {0}}) (Done {B = Unit {0}}) _ (emit_event sv _ _ _ s)
        (event-Yields _ _ _ s) λ t s' u. surface-Yields fs s'

  abbrev Audited : PaperDraft → AuditReport → Type 0
  Audited paper report = (w : W) × (report ≡ audit_of sv g paper w)

  first_audit-Yields :
      (paper : PaperDraft) (s : RunState Num W)
      → Yields E (Audited paper) (first_audit sv g paper s)
  unfolding first_audit audit_now world_now log_stage_done
  first_audit-Yields paper s =
      Yields-continue (Done {B = Unit {0}}) (Audited paper) _ (emit_event sv _ _ _ s)
        (event-Yields _ _ _ s)
        λ t s₁ u.
          Yields-continue (Done {B = Unit {0}}) (Audited paper) _
            (surface sv g (audit_of sv g paper s₁.world).findings s₁)
            (surface-Yields (audit_of sv g paper s₁.world).findings s₁)
            λ t' s₂ u'.
              Yields-continue (Done {B = Unit {0}}) (Audited paper) _ (emit_event sv _ _ _ s₂)
                (event-Yields _ _ _ s₂) λ t'' s₃ u''. (s₁.world, refl)

  refresh-ok : (s : RunState Num W) → (refresh_total sv g s).0 ≡ ok tt
  unfolding total
  refresh-ok s = elim (Bool-cases g.tracked) [ inl e ↦ rw e | inr e ↦ rw e ]

  refreshed :
      {C : Type 0} (R : C → Type 0) (f : Unit {0} → Exec (RunState Num W) C) (s : RunState Num W)
      → Yields E R (f tt (refresh_total sv g s).1)
      → Yields E R ((refresh_total sv g >>= f) s)
  refreshed R f s h = rw (refresh-ok s) h

  -- The bounce, on an audit with something for the Writer.
  module _ (paper : PaperDraft) (w : W)
      (some_blocking : blocking_for DispatchTarget.writer (audit_of sv g paper w) ≢ []) where
    after_bounce-Ships :
        (r : Result PaperDraft) (w₁ w₂ : W) (s : RunState Num W)
        → g.revise paper (fake_critique (audit_of sv g paper w)) w₁ ≡ (r, w₂)
        → Yields E (Ships sv g paper) (after_bounce sv g paper (audit_of sv g paper w) r s)
    unfolding after_bounce audit_now log_second
    after_bounce-Ships (err e) w₁ w₂ s made = elim (Bool-cases (is_agent_error e)) [
      | inl agent ↦ rw agent (
          Yields-continue (Done {B = Unit {0}}) (Ships sv g paper) _ (emit_event sv _ _ _ s)
            (event-Yields _ _ _ s) λ t s' u. inl refl)
      | inr foreign ↦ rw foreign (raises.revise_raises paper _ w₁ e (ap (λ p. p.0) made) foreign)
    ]
    after_bounce-Ships (ok revision) w₁ w₂ s made = refreshed (Ships sv g paper) _ s (
        Yields-continue (Done {B = Unit {0}}) (Ships sv g paper) _
          (emit_event sv _ _ _ (refresh_total sv g s).1)
          (event-Yields _ _ _ (refresh_total sv g s).1)
          λ t s' u. inr (w, w₁, w₂, some_blocking, made))

    bounce-Ships :
        (s : RunState Num W)
        → Yields E (Ships sv g paper) (bounce sv g paper (audit_of sv g paper w) s)
    unfolding bounce
    bounce-Ships s =
        after_bounce-Ships _ s.world _
          (ask bounced (g.revise paper (fake_critique (audit_of sv g paper w))) s).1 refl

  dispatch-Ships :
      (paper : PaperDraft) (w : W) (fs : List AuditFinding) (s : RunState Num W)
      → blocking_for DispatchTarget.writer (audit_of sv g paper w) ≡ fs
      → Yields E (Ships sv g paper) (dispatch sv g paper (audit_of sv g paper w) fs s)
  unfolding dispatch
  dispatch-Ships paper w [] s h = inl refl
  dispatch-Ships paper w (f ∷ fs) s h =
      Yields-continue (Done {B = Unit {0}}) (Ships sv g paper) _ (poll sv s)
        (plainly (poll sv s).0 (poll sv s).1 (raises.poll_raises s))
        λ t s₁ u.
          Yields-continue (Done {B = Unit {0}}) (Ships sv g paper) _ (emit_event sv _ _ _ s₁)
            (event-Yields _ _ _ s₁) λ t' s₂ u'. bounce-Ships paper w (λ e. cc) s₂

  -- `_run_audit_and_maybe_revise` ships the paper itself, or the revision that the Writer makes of
  -- it in answer to an audit with blocking findings for the Writer. It raises nothing but what an
  -- event, the poll or a revision raises, and of the last no `AgentError`.
  pub run_audit_and_maybe_revise_outcome :
      (paper : PaperDraft) (s : RunState Num W)
      → Yields E (Ships sv g paper) (run_audit_and_maybe_revise sv g paper s)
  unfolding run_audit_and_maybe_revise
  run_audit_and_maybe_revise_outcome paper s =
      Yields-continue (Audited paper) (Ships sv g paper) _ (first_audit sv g paper s)
        (first_audit-Yields paper s) judged
    where
      judged :
          (report : AuditReport) (s' : RunState Num W)
          → Audited paper report
          → Yields E (Ships sv g paper) (
              (if passed report
                  then pure paper
                  else dispatch sv g paper report (blocking_for DispatchTarget.writer report))
                s')
      judged report s' (w, is_audit) = elim (Bool-cases (passed report)) [
        | inl e ↦ rw e (inl refl)
        | inr e ↦ rw e (rw is_audit (dispatch-Ships paper w _ s' refl))
      ]
