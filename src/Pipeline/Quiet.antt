-- ===== src/Pipeline/Quiet.antt =====
-- pipeline.py: calls that run no agent of the order and end no run.
use mathodology.Prelude.{
  arith, ℕ, ◌+◌, ◌≡◌, refl, ◌∙◌, Bool, true, false, Option, List, [], ◌∷◌, if◌then◌else◌,
}
use mathodology.Exec.{
  Error, Result, ok, err, Exec, pure, gets, ◌>>=◌, continue, recover, try_except,
}
use mathodology.Float.{Float}
use mathodology.Text.{Text}
use mathodology.Contracts.{Stage}
use mathodology.Events.{AgentName, EventKind, done, Payload}
use mathodology.Pipeline.State.{
  RunState, Services, Call, emitted, polled, ran, reviewed, revised, bounced, wrote, exported, ask,
  emit_event, total, poll,
}

abbrev pub is_done : EventKind → Bool
is_done done = true
is_done _ = false

module _ {Num : Type 0} where
  -- The stages whose agents were run, newest first.
  abbrev pub stages_run : List (Call Num) → List Stage
  stages_run [] = []
  stages_run (ran t ∷ cs) = t ∷ stages_run cs
  stages_run (emitted k p a ∷ cs) = stages_run cs
  stages_run (polled ∷ cs) = stages_run cs
  stages_run (reviewed t r ∷ cs) = stages_run cs
  stages_run (revised t r x ∷ cs) = stages_run cs
  stages_run (bounced ∷ cs) = stages_run cs
  stages_run (wrote f ∷ cs) = stages_run cs
  stages_run (exported ∷ cs) = stages_run cs

  -- The number of `done` events.
  abbrev pub dones : List (Call Num) → ℕ
  dones [] = 0
  dones (emitted k p a ∷ cs) = (if is_done k then 1 else 0) + dones cs
  dones (ran t ∷ cs) = dones cs
  dones (polled ∷ cs) = dones cs
  dones (reviewed t r ∷ cs) = dones cs
  dones (revised t r x ∷ cs) = dones cs
  dones (bounced ∷ cs) = dones cs
  dones (wrote f ∷ cs) = dones cs
  dones (exported ∷ cs) = dones cs

  abbrev pub tally : List (Call Num) → List Stage × ℕ
  tally cs = (stages_run cs, dones cs)

-- The tally of the calls is kept.
pub record Quiet {Num W B : Type 0} (m : Exec (RunState Num W) B) : Type 0 where
  pub keeps : (s : RunState Num W) → tally (m s).1.calls ≡ tally s.calls

module _ {Num W : Type 0} where
  module _ {B : Type 0} where
    pub Quiet-pure : (b : B) → Quiet {Num = Num} {W = W} (pure b)
    Quiet-pure b = record { keeps = λ s. refl }

    pub Quiet-if :
        (c : Bool) {m n : Exec (RunState Num W) B} → Quiet m → Quiet n → Quiet (if c then m else n)
    Quiet-if true h k = h
    Quiet-if false h k = k

  module _ {B C : Type 0} where
    Quiet-continue :
        (f : B → Exec (RunState Num W) C) (r : Result B) (s : RunState Num W)
        → ((b : B) → Quiet (f b))
        → tally (continue f r s).1.calls ≡ tally s.calls
    Quiet-continue f (ok b) s h = (h b).keeps s
    Quiet-continue f (err e) s h = refl

    pub Quiet-bind :
        {m : Exec (RunState Num W) B} (f : B → Exec (RunState Num W) C)
        → Quiet m
        → ((b : B) → Quiet (f b))
        → Quiet (m >>= f)
    Quiet-bind {m} f h k = record { keeps = λ s. Quiet-continue f (m s).0 (m s).1 k ∙ h.keeps s }

  module _ {B : Type 0} where
    Quiet-recover :
        (h : Error → Exec (RunState Num W) B) (r : Result B) (s : RunState Num W)
        → ((e : Error) → Quiet (h e))
        → tally (recover h r s).1.calls ≡ tally s.calls
    Quiet-recover h (ok b) s k = refl
    Quiet-recover h (err e) s k = (k e).keeps s

    pub Quiet-try :
        {m : Exec (RunState Num W) B} (h : Error → Exec (RunState Num W) B)
        → Quiet m
        → ((e : Error) → Quiet (h e))
        → Quiet (try_except m h)
    Quiet-try {m} h q k = record { keeps = λ s. Quiet-recover h (m s).0 (m s).1 k ∙ q.keeps s }

quiet_event :
    {Num : Type 0} (kind : EventKind) (payload : Payload) (agent : Option AgentName)
    (cs : List (Call Num))
    → is_done kind ≡ false
    → tally (emitted kind payload agent ∷ cs) ≡ tally cs
quiet_event kind payload agent cs e = ground arith

module _ {Num W B : Type 0} where
  pub gets-Quiet : (f : RunState Num W → B) → Quiet (gets f)
  gets-Quiet f = record { keeps = λ s. refl }

  pub wrote-Quiet : (file : Text) (m : Exec W B) → Quiet {Num = Num} (ask (wrote file) m)
  wrote-Quiet file m = record { keeps = λ s. refl }

  pub exported-Quiet : (m : Exec W B) → Quiet {Num = Num} (ask exported m)
  exported-Quiet m = record { keeps = λ s. refl }

module _ {Num W : Type 0} ⦃fl : Float Num⦄ (sv : Services Num W) where
  pub emit-Quiet :
      (kind : EventKind) (payload : Payload) (agent : Option AgentName)
      → is_done kind ≡ false
      → Quiet (emit_event sv kind payload agent)
  unfolding emit_event
  emit-Quiet kind payload agent e = record { keeps = λ s. quiet_event kind payload agent s.calls e }

  pub poll-Quiet : Quiet (poll sv)
  unfolding poll
  poll-Quiet = record { keeps = λ s. refl }

  pub total-Quiet : Quiet (total sv)
  unfolding total
  total-Quiet = record { keeps = λ s. refl }
