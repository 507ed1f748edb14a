-- ===== src/Editor/Agent/Bounds.antt =====
-- agents/paper_editor.py: how much a run of the agent does, and what it keeps.
use mathodology.Prelude.{
  ℕ, zero, suc, ◌+◌, ◌*◌, ◌≤◌, Bool, true, false, Option, none, List, [], ◌∷◌, ◌++◌, ◌⊎◌, inl, inr,
  arith, if◌then◌else◌,
}
use mathodology.Text.{Text}
use mathodology.Exec.{
  Error, is_agent_error, Result, Exec, pure, raise, continue, ◌>>=◌, ◌>>◌, recover, try_except,
}
use mathodology.Float.{Float}
use mathodology.Editor.Args.{ℤ}
use mathodology.Editor.Meta.{ToolContext}
use mathodology.Editor.Notebook.{Host}
use mathodology.Editor.Reach.{Step, Steps, stay, one, join-Steps}
use mathodology.Editor.Reach.Tools.{execute-Reaches}
use mathodology.Editor.Agent.{
  PaperEditorDirective, Message, Event, Service, Session, unfenced_reply, emit_event, ask_model,
  run_tool, retry_message, ask_again, call_tool, turns, finish, drive,
}

-- The tool calls among the events.
abbrev pub calls : List Event → ℕ
calls [] = 0
calls (Event.tool_call t a r ∷ es) = suc (calls es)
calls (Event.stage_start ∷ es) = calls es
calls (Event.tool_result t r ∷ es) = calls es
calls (Event.parse_failed m ∷ es) = calls es
calls (Event.stage_done m ∷ es) = calls es
calls (Event.stage_failed ∷ es) = calls es

-- A run makes at most `a` tool calls and asks for at most `b` replies, and changes the context of the
-- tools by steps only, whether it returns or raises.
pub record Runs {W A : Type 0} (a b : ℕ) (m : Exec (Session W) A) : Type 0 where
  pub run_calls : (s : Session W) → calls (m s).1.trace ≤ calls s.trace + a
  pub run_asked : (s : Session W) → (m s).1.completions ≤ s.completions + b
  pub run_steps : (s : Session W) → Steps s.context (m s).1.context

module _ {W A : Type 0} where
  pure-Runs : (x : A) → Runs {W = W} 0 0 (pure x)
  pure-Runs x = record {
    run_calls = λ s. omega arith;
    run_asked = λ s. omega arith;
    run_steps = λ s. stay _;
  }

  raise-Runs : (e : Error) → Runs {W = W} {A = A} 0 0 (raise e)
  raise-Runs e = record {
    run_calls = λ s. omega arith;
    run_asked = λ s. omega arith;
    run_steps = λ s. stay _;
  }

module _ {W A B : Type 0} (a b c d : ℕ) where
  continue_calls :
      (f : A → Exec (Session W) B)
      → ((x : A) → Runs c d (f x))
      → (n : ℕ) (r : Result A × Session W) → calls r.1.trace ≤ n + a
      → calls (continue f r.0 r.1).1.trace ≤ n + (a + c)
  continue_calls f h n (Result.ok x, s) le = omega (arith, le, (h x).run_calls s)
  continue_calls f h n (Result.err e, s) le = omega (arith, le)

  continue_asked :
      (f : A → Exec (Session W) B)
      → ((x : A) → Runs c d (f x))
      → (n : ℕ) (r : Result A × Session W) → r.1.completions ≤ n + b
      → (continue f r.0 r.1).1.completions ≤ n + (b + d)
  continue_asked f h n (Result.ok x, s) le = omega (arith, le, (h x).run_asked s)
  continue_asked f h n (Result.err e, s) le = omega (arith, le)

  continue-Steps :
      (f : A → Exec (Session W) B)
      → ((x : A) → Runs c d (f x))
      → (k : ToolContext W) (r : Result A × Session W) → Steps k r.1.context
      → Steps k (continue f r.0 r.1).1.context
  continue-Steps f h k (Result.ok x, s) st = join-Steps k _ _ st ((h x).run_steps s)
  continue-Steps f h k (Result.err e, s) st = st

  bind-Runs :
      (m : Exec (Session W) A) (f : A → Exec (Session W) B)
      → Runs a b m
      → ((x : A) → Runs c d (f x))
      → Runs (a + c) (b + d) (m >>= f)
  bind-Runs m f h k = record {
    run_calls = λ s. continue_calls f k (calls s.trace) (m s) (h.run_calls s);
    run_asked = λ s. continue_asked f k s.completions (m s) (h.run_asked s);
    run_steps = λ s. continue-Steps f k s.context (m s) (h.run_steps s);
  }

module _ {W A : Type 0} (a b c d : ℕ) where
  recover-Runs :
      (f : Error → Exec (Session W) A)
      → ((e : Error) → Runs c d (f e))
      → (s : Session W) (r : Result A × Session W) → calls r.1.trace ≤ calls s.trace + a
      → r.1.completions ≤ s.completions + b
      → Steps s.context r.1.context
      → (calls (recover f r.0 r.1).1.trace ≤ calls s.trace + (a + c))
        × ((recover f r.0 r.1).1.completions ≤ s.completions + (b + d))
        × Steps s.context (recover f r.0 r.1).1.context
  recover-Runs f h s (Result.ok x, t) le le' st = (omega (arith, le), omega (arith, le'), st)
  recover-Runs f h s (Result.err e, t) le le' st = (
    omega (arith, le, (h e).run_calls t),
    omega (arith, le', (h e).run_asked t),
    join-Steps _ _ _ st ((h e).run_steps t),
  )

  try_except-Runs :
      (m : Exec (Session W) A) (f : Error → Exec (Session W) A)
      → Runs a b m
      → ((e : Error) → Runs c d (f e))
      → Runs (a + c) (b + d) (try_except m f)
  try_except-Runs m f h k = record {
    run_calls = λ s. (recover-Runs f k s (m s) (h.run_calls s) (h.run_asked s) (h.run_steps s)).0;
    run_asked = λ s. (recover-Runs f k s (m s) (h.run_calls s) (h.run_asked s) (h.run_steps s)).1;
    run_steps = λ s. (recover-Runs f k s (m s) (h.run_calls s) (h.run_asked s) (h.run_steps s)).2;
  }

weaken :
    {W A : Type 0} (a b c d : ℕ) (m : Exec (Session W) A) → a ≤ c → b ≤ d → Runs a b m → Runs c d m
weaken a b c d m ac bd h = record {
  run_calls = λ s. omega (arith, ac, h.run_calls s);
  run_asked = λ s. omega (arith, bd, h.run_asked s);
  run_steps = h.run_steps;
}

weight : Event → ℕ
weight (Event.tool_call t a r) = 1
weight Event.stage_start = 0
weight (Event.tool_result t r) = 0
weight (Event.parse_failed m) = 0
weight (Event.stage_done m) = 0
weight Event.stage_failed = 0

calls-cons : (e : Event) (es : List Event) → calls (e ∷ es) ≤ calls es + weight e
unfolding weight
calls-cons (Event.tool_call t a r) es = omega arith
calls-cons Event.stage_start es = omega arith
calls-cons (Event.tool_result t r) es = omega arith
calls-cons (Event.parse_failed m) es = omega arith
calls-cons (Event.stage_done m) es = omega arith
calls-cons Event.stage_failed es = omega arith

module _ {Num W : Type 0} ⦃fl : Float Num⦄ (service : Service W) (host : Host Num W)
    (repr : Text → Text) (parse : Text → Option ℤ) where
  emit-Runs : (e : Event) → Runs (weight e) 0 (emit_event service host repr parse e)
  emit-Runs e = record {
    run_calls = λ s. calls-cons e s.trace;
    run_asked = λ s. omega arith;
    run_steps = λ s. one _ _ (Step.moved s.context _);
  }

  ask_model-Runs : (ms : List Message) → Runs 0 1 (ask_model service host repr parse ms)
  ask_model-Runs ms = record {
    run_calls = λ s. omega arith;
    run_asked = λ s. omega arith;
    run_steps = λ s. one _ _ (Step.moved s.context _);
  }

  run_tool-Runs : (d : PaperEditorDirective) → Runs 0 0 (run_tool service host repr parse d)
  run_tool-Runs d = record {
    run_calls = λ s. omega arith;
    run_asked = λ s. omega arith;
    run_steps = λ s. (execute-Reaches host repr parse d.tool d.args).reached s.context;
  }

  parsed-Runs :
      (k : ℕ) (ms : List Message)
      → ((e : Text)
          → Runs 0 k (
              ask_again service host repr parse k e
                (ms ++ retry_message service host repr parse e ∷ [])))
      → (r : Text ⊎ PaperEditorDirective)
      → Runs 0 k (elim r as (λ _. Exec (Session W) PaperEditorDirective) [
        | inl e ↦
            ask_again service host repr parse k e
              (ms ++ retry_message service host repr parse e ∷ [])
        | inr d ↦ pure d
      ])
  parsed-Runs k ms h (inl e) = h e
  parsed-Runs k ms h (inr d) = weaken 0 0 0 k _ (omega arith) (omega arith) (pure-Runs d)

  ask_again-Runs :
      (k : ℕ) (last : Text) (ms : List Message)
      → Runs 0 k (ask_again service host repr parse k last ms)
  unfolding ask_again weight
  ask_again-Runs zero last ms =
      weaken _ _ 0 0 _ (omega arith) (omega arith)
        (bind-Runs 0 0 0 0 _ _ (emit-Runs (Event.parse_failed last)) (λ _. raise-Runs _))
  ask_again-Runs (suc k) last ms = weaken _ _ 0 (suc k) _ (omega arith) (omega arith) (
      bind-Runs 0 1 0 k _ _ (ask_model-Runs ms)
        (λ t. parsed-Runs k ms (λ e. ask_again-Runs k e _) (service.decode (unfenced_reply t))))

  call_tool-Runs : (d : PaperEditorDirective) → Runs 1 0 (call_tool service host repr parse d)
  unfolding weight
  call_tool-Runs d = weaken _ _ 1 0 _ (omega arith) (omega arith) (
      bind-Runs 1 0 0 0 _ _ (emit-Runs (Event.tool_call d.tool d.args d.reasoning)) (λ _.
        weaken _ _ 0 0 _ (omega arith) (omega arith) (
          bind-Runs 0 0 0 0 _ _ (run_tool-Runs d) (λ r.
            weaken _ _ 0 0 _ (omega arith) (omega arith) (
              bind-Runs 0 0 0 0 _ _ (emit-Runs (Event.tool_result d.tool r)) (λ _. pure-Runs r))))))

  next-Runs :
      (a b : ℕ) (stop go : Exec (Session W) (Option Text))
      → Runs a b stop
      → Runs a b go
      → (done : Bool)
      → Runs a b (elim done as (λ _. Exec (Session W) (Option Text)) [ true ↦ stop | false ↦ go ])
  next-Runs a b stop go h g true = h
  next-Runs a b stop go h g false = g

  turns-Runs : (n : ℕ) (ms : List Message) → Runs n (2 * n) (turns service host repr parse n ms)
  unfolding turns
  turns-Runs zero ms = weaken 0 0 0 (2 * 0) _ (omega arith) (omega arith) (pure-Runs none)
  turns-Runs (suc n) ms = weaken _ _ (suc n) (2 * suc n) _ (omega arith) (omega arith) (
      bind-Runs 0 2 (1 + n) (0 + 2 * n) _ _ (ask_again-Runs 2 [] ms) (λ d.
        bind-Runs 1 0 n (2 * n) _ _ (call_tool-Runs d) (λ r.
          next-Runs n (2 * n) _ _ (weaken 0 0 n (2 * n) _ (omega arith) (omega arith) (pure-Runs _))
            (turns-Runs n _) d.done)))

  finish-Runs : (max : ℕ) (o : Option Text) → Runs 0 0 (finish service host repr parse max o)
  unfolding weight
  finish-Runs max o =
      weaken _ _ 0 0 _ (omega arith) (omega arith)
        (bind-Runs 0 0 0 0 _ _ (emit-Runs (Event.stage_done _)) (λ _. pure-Runs _))

  failed-Runs :
      (e : Error) (b : Bool)
      → Runs 0 0 (
          if b
          then (emit_event service host repr parse Event.stage_failed >> raise {A = Text} e)
          else raise e)
  unfolding weight
  failed-Runs e true =
      weaken _ _ 0 0 _ (omega arith) (omega arith)
        (bind-Runs 0 0 0 0 _ _ (emit-Runs Event.stage_failed) (λ _. raise-Runs e))
  failed-Runs e false = raise-Runs e

  pub drive-Runs :
      (max : ℕ) (ms : List Message) → Runs max (2 * max) (drive service host repr parse max ms)
  unfolding drive
  drive-Runs max ms = weaken _ _ max (2 * max) _ (omega arith) (omega arith) (
      try_except-Runs (max + 0) (2 * max + 0) 0 0 _ _
        (bind-Runs max (2 * max) 0 0 _ _ (turns-Runs max ms) (finish-Runs max))
        (λ e. failed-Runs e (is_agent_error e)))

  -- A run of `max` iterations executes at most `max` tools and asks the model for at most twice as
  -- many replies, whatever the model, the tools and the emitter do.
  pub drive_bounded :
      (max : ℕ) (messages : List Message) (s : Session W)
      → (calls (drive service host repr parse max messages s).1.trace ≤ calls s.trace + max)
        × ((drive service host repr parse max messages s).1.completions ≤ s.completions + 2 * max)
  drive_bounded max messages s = let h = drive-Runs max messages in (h.run_calls s, h.run_asked s)
