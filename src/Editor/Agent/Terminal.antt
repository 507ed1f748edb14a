-- ===== src/Editor/Agent/Terminal.antt =====
-- agents/paper_editor.py: how a run of the agent ends.
use mathodology.Prelude.{
  ℕ, ◌≡◌, refl, sym, ap, ◌∙◌, Bool, true, false, Option, none, some, List, [], ◌∷◌, true-false,
  if◌then◌else◌,
}
use mathodology.Text.{Text}
use mathodology.Exec.{Error, is_agent_error, Result, pure, raise, continue, ◌>>◌, recover}
use mathodology.Float.{Float}
use mathodology.Editor.Args.{ℤ}
use mathodology.Editor.Notebook.{Host}
use mathodology.Editor.Agent.{
  Message, Event, Service, Session, moved, emit_event, turns, summary_of, finish, on_agent_error,
  drive,
}

abbrev pub newest : List Event → Option Event
newest [] = none
newest (e ∷ es) = some e

-- A summary is announced by the newest event, and so is an error of the agents.
pub record Ended {W : Type 0} (r : Result Text × Session W) : Type 0 where
  pub ended_done : (t : Text) → r.0 ≡ Result.ok t → newest r.1.trace ≡ some (Event.stage_done t)
  pub ended_failed :
      (e : Error)
      → r.0 ≡ Result.err e
      → is_agent_error e ≡ true
      → newest r.1.trace ≡ some Event.stage_failed

ok_injective : {A : Type 0} {a b : A} → Result.ok a ≡ Result.ok b → a ≡ b
ok_injective h = cc

err_injective : {a b : Error} → ◌≡◌ {A = Result Text} (Result.err a) (Result.err b) → a ≡ b
err_injective h = cc

ok_err : {A : Type 0} {a : A} {e : Error} → Result.ok a ≡ Result.err e → ⊥
ok_err h = cc

-- The summary is announced.
Announced : {W : Type 0} → Result Text × Session W → Type 0
Announced r = (t : Text) → r.0 ≡ Result.ok t → newest r.1.trace ≡ some (Event.stage_done t)

module _ {Num W : Type 0} ⦃fl : Float Num⦄ (service : Service W) (host : Host Num W)
    (repr : Text → Text) (parse : Text → Option ℤ) where
  pure-Announced :
      (x : Text) (es : List Event) (s : Session W) (p : Result (Unit {0}) × W)
      → Announced (
          continue
            (λ _. pure x)
            (moved service host repr parse (record s { trace = Event.stage_done x ∷ es }) p).0
            (moved service host repr parse (record s { trace = Event.stage_done x ∷ es }) p).1)
  unfolding Announced
  pure-Announced x es s (Result.ok u, w) t h = ap (λ y. some (Event.stage_done y)) (ok_injective h)
  pure-Announced x es s (Result.err e, w) t h = absurd (ok_err (sym h))

  finish-Announced :
      (max : ℕ) (r : Result (Option Text) × Session W)
      → Announced (continue (finish service host repr parse max) r.0 r.1)
  unfolding Announced
  finish-Announced max (Result.ok o, s) t h =
      pure-Announced (summary_of service host repr parse max o) s.trace s
        (service.send (Event.stage_done (summary_of service host repr parse max o)) s.context.world)
        t h
  finish-Announced max (Result.err e, s) t h = absurd (ok_err (sym h))

  -- After `stage_failed`, whether or not the emitter raises.
  raise_failed :
      (e : Error) (s : Session W) (p : Result (Unit {0}) × W)
      → (newest
            (continue
              (λ _. raise {A = Text} e)
              (moved service host repr parse
                (record s { trace = Event.stage_failed ∷ s.trace })
                p).0
              (moved service host repr parse
                (record s { trace = Event.stage_failed ∷ s.trace })
                p).1).1.trace
          ≡ some Event.stage_failed)
        × ((t : Text)
            → (continue
                (λ _. raise {A = Text} e)
                (moved service host repr parse
                  (record s { trace = Event.stage_failed ∷ s.trace })
                  p).0
                (moved service host repr parse
                  (record s { trace = Event.stage_failed ∷ s.trace })
                  p).1).0
              ≡ Result.ok t
            → ⊥)
  raise_failed e s (Result.ok u, w) = (refl, λ t h. ok_err (sym h))
  raise_failed e s (Result.err e', w) = (refl, λ t h. ok_err (sym h))

  on_agent_error-Ended :
      (e : Error) (s : Session W) (b : Bool)
      → is_agent_error e ≡ b
      → Ended (
          (if b
              then (emit_event service host repr parse Event.stage_failed >> raise {A = Text} e)
              else raise e)
            s)
  on_agent_error-Ended e s true q =
      let p = raise_failed e s (service.send Event.stage_failed s.context.world) in
      record { ended_done = λ t h. absurd (p.1 t h); ended_failed = λ _ _ _. p.0 }
  on_agent_error-Ended e s false q = record {
    ended_done = λ t h. absurd (ok_err (sym h));
    ended_failed =
        λ f h a. absurd (true-false (sym a ∙ ap is_agent_error (sym (err_injective h)) ∙ q));
  }

  recover-Ended :
      (r : Result Text × Session W)
      → Announced r
      → Ended (recover (on_agent_error service host repr parse) r.0 r.1)
  unfolding Announced
  recover-Ended (Result.ok t, s) h = record {
    ended_done = h;
    ended_failed = λ e q. absurd (ok_err q);
  }
  recover-Ended (Result.err e, s) h = on_agent_error-Ended e s (is_agent_error e) refl

  -- A run that returns a summary has announced it by a `stage.done` as its newest event; one that
  -- raises an AgentError has announced the failure by a `stage.done` with status failed.
  pub drive-Ended :
      (max : ℕ) (messages : List Message) (s : Session W)
      → Ended (drive service host repr parse max messages s)
  unfolding drive
  drive-Ended max messages s =
      recover-Ended _ (finish-Announced max (turns service host repr parse max messages s))
