-- ===== src/Streaming/Retries.antt =====
-- agents/base.py: what `_stream_with_retry` returns or raises, and how often it asks and waits.
use mathodology.Prelude.{
  ℕ, suc, ◌+◌, ◌≤◌, ◌<◌, ◌≡◌, refl, sym, ◌⊎◌, inl, inr, true, Option, none, some, List, [], ◌∷◌,
  arith, ltb, length, Bool-cases,
}
use mathodology.Text.{Text, truthy, strip}
use mathodology.Exec.{Error, agent_error, Result, ok, err, Exec, ◌>>=◌, continue}
use mathodology.Events.{AgentName, Outside}
use mathodology.Streaming.{
  Failure, transport, http_status, unknown, Step, streamed, slept, StreamState, backoffs,
  empty_stream, log_retry, sleep_for, back_off, call_stream, on_failure, on_reply, try_stream,
  attempts, stream_with_retry,
}

abbrev pub asked : List Step → ℕ
asked [] = 0
asked (streamed r ∷ steps) = suc (asked steps)
asked (slept d ∷ steps) = asked steps

-- The seconds waited.
abbrev pub waited : List Step → ℕ
waited [] = 0
waited (streamed r ∷ steps) = waited steps
waited (slept d ∷ steps) = d + waited steps

abbrev pub latest : List Step → Option Step
latest [] = none
latest (s ∷ steps) = some s

abbrev sum : List ℕ → ℕ
sum [] = 0
sum (d ∷ ds) = d + sum ds

-- `e` is no passing trouble: no transport error and no status from 500 on.
abbrev pub Lasting : (Error → Failure) → Error → Type 0
Lasting failure_of e =
    (failure_of e ≡ unknown) ⊎ ((code : ℕ) × (failure_of e ≡ http_status code) × (code < 500))

module _ {W : Type 0} (out : Outside W) (sleep : ℕ → W → W) (stream : Exec W Text)
    (failure_of : Error → Failure) (agent : AgentName) (agent_name : Text) where
  -- From the steps `before`: `n` more calls and `d` more seconds at most; a text that is not blank
  -- and that the last call answered, or an error of the log, a lasting error of the stream, or the final `AgentError`.
  pub record Outcome (n d : ℕ) (before : List Step) (p : Result Text × StreamState W) : Type 0 where
    pub calls : asked p.1.steps ≤ asked before + n
    pub seconds : waited p.1.steps ≤ waited before + d
    pub returned :
        (t : Text)
        → p.0 ≡ ok t
        → (truthy (strip t) ≡ true) × (latest p.1.steps ≡ some (streamed (ok t)))
    pub raised :
        (e : Error)
        → p.0 ≡ err e
        → ((m : Text) × (e ≡ agent_error m))
          ⊎ (((w : W) × ((stream w).0 ≡ err e) × Lasting failure_of e)
              ⊎ ((k : ℕ) × (delay : ℕ) × (last : Option Error) × (s : StreamState W) × ((log_retry
                      out sleep stream failure_of agent agent_name k delay last s).0
                    ≡ err e)))

  -- Steps that come at most `a` calls and `b` seconds after others.
  record Within (a b : ℕ) (before now : List Step) : Type 0 where
    calls_by : asked now ≤ asked before + a
    seconds_by : waited now ≤ waited before + b

  later :
      (a b n d : ℕ) (before : List Step) (s : StreamState W) (p : Result Text × StreamState W)
      → Within a b before s.steps
      → Outcome n d s.steps p
      → Outcome (a + n) (b + d) before p
  later a b n d before s p h o = record {
    calls = omega (arith, h.calls_by, o.calls);
    seconds = omega (arith, h.seconds_by, o.seconds);
    returned = o.returned;
    raised = o.raised;
  }

  looser :
      (n d N D : ℕ) (before : List Step) (p : Result Text × StreamState W)
      → n ≤ N
      → d ≤ D
      → Outcome n d before p
      → Outcome N D before p
  looser n d N D before p few short o = record {
    calls = omega (arith, o.calls, few);
    seconds = omega (arith, o.seconds, short);
    returned = o.returned;
    raised = o.raised;
  }

  returns :
      (n d : ℕ) (before : List Step) (t : Text) (s : StreamState W)
      → Within n d before s.steps
      → truthy (strip t) ≡ true
      → latest s.steps ≡ some (streamed (ok t))
      → Outcome n d before (ok t, s)
  returns n d before t s h solid given = record {
    calls = h.calls_by;
    seconds = h.seconds_by;
    returned = λ u e. (cc, cc);
    raised = λ e k. cc;
  }

  raises :
      (n d : ℕ) (before : List Step) (x : Error) (s : StreamState W)
      → Within n d before s.steps
      → ((m : Text) × (x ≡ agent_error m))
        ⊎ (((w : W) × ((stream w).0 ≡ err x) × Lasting failure_of x)
            ⊎ ((k : ℕ) × (delay : ℕ) × (last : Option Error) × (s' : StreamState W) × ((log_retry
                    out sleep stream failure_of agent agent_name k delay last s').0
                  ≡ err x)))
      → Outcome n d before (err x, s)
  raises n d before x s h why = record {
    calls = h.calls_by;
    seconds = h.seconds_by;
    returned = λ u e. (cc, cc);
    raised = λ e k. rw (sym (err_inj x e k)) why;
  }
    where
      err_inj : (x e : Error) → ◌≡◌ {A = Result Text} (err x) (err e) → x ≡ e
      err_inj x e k = cc

  module _ (ds : List ℕ) (k n d : ℕ) (before : List Step)
      (next : (last : Option Error) (s : StreamState W)
        → Outcome n d s.steps
            (attempts out sleep stream failure_of agent agent_name ds (k + 1) last s)) where
    failed-Outcome :
        (e : Error) (w : W) (f : Failure) (s : StreamState W)
        → (stream w).0 ≡ err e
        → failure_of e ≡ f
        → Within 1 0 before s.steps
        → Outcome (1 + n) (0 + d) before (
            on_failure out sleep stream failure_of agent agent_name
              (attempts out sleep stream failure_of agent agent_name ds (k + 1))
              e
              f
              s)
    failed-Outcome e w transport s from is_f h = later 1 0 n d before s _ h (next (some e) s)
    failed-Outcome e w unknown s from is_f h =
        raises (1 + n) (0 + d) before e s
          (record {
            calls_by = omega (arith, h.calls_by);
            seconds_by = omega (arith, h.seconds_by);
          })
          (inr (inl (w, from, inl is_f)))
    failed-Outcome e w (http_status code) s from is_f h = elim (Bool-cases (ltb code 500)) [
      | inl low ↦ rw low (
          raises (1 + n) (0 + d) before e s
            (record {
              calls_by = omega (arith, h.calls_by);
              seconds_by = omega (arith, h.seconds_by);
            })
            (inr (inl (w, from, inr (code, is_f, ground arith)))))
      | inr high ↦ rw high (later 1 0 n d before s _ h (next (some e) s))
    ]

    reply-Outcome :
        (r : Result Text) (w : W) (s : StreamState W)
        → (stream w).0 ≡ r
        → latest s.steps ≡ some (streamed r)
        → Within 1 0 before s.steps
        → Outcome (1 + n) (0 + d) before (
            on_reply out sleep stream failure_of agent agent_name
              (attempts out sleep stream failure_of agent agent_name ds (k + 1))
              r
              s)
    reply-Outcome (err e) w s from given h = failed-Outcome e w (failure_of e) s from refl h
    reply-Outcome (ok t) w s from given h = elim (Bool-cases (truthy (strip t))) [
      | inl solid ↦ rw solid (
          returns (1 + n) (0 + d) before t s
            (record {
              calls_by = omega (arith, h.calls_by);
              seconds_by = omega (arith, h.seconds_by);
            })
            solid given)
      | inr blank ↦ rw blank (later 1 0 n d before s _ h (next (some empty_stream) s))
    ]

  same : (steps : List Step) → Within 0 0 steps steps
  same steps = record { calls_by = omega arith; seconds_by = omega arith }

  -- The call after the wait.
  try-Outcome :
      (ds : List ℕ) (k n d : ℕ)
      → ((last : Option Error) (s : StreamState W)
          → Outcome n d s.steps
              (attempts out sleep stream failure_of agent agent_name ds (k + 1) last s))
      → (s : StreamState W)
      → Outcome (1 + n) (0 + d) s.steps (
          try_stream out sleep stream failure_of agent agent_name
            (attempts out sleep stream failure_of agent agent_name ds (k + 1))
            s)
  try-Outcome ds k n d next s =
      reply-Outcome ds k n d s.steps next (stream s.world).0 s.world
        (call_stream out sleep stream failure_of agent agent_name s).1 refl refl
        (record { calls_by = omega arith; seconds_by = omega arith })

  -- The wait, and what follows it.
  logged-Outcome :
      (n d delay attempt : ℕ) (last : Option Error) (f : Unit {0} → Exec (StreamState W) Text)
      (s : StreamState W) (follows : (s' : StreamState W) → Outcome n d s'.steps (f tt s'))
      (r : Result (Unit {0})) (s₁ : StreamState W)
      → (log_retry out sleep stream failure_of agent agent_name attempt delay last s).0 ≡ r
      → s₁.steps ≡ s.steps
      → Outcome n (delay + d) s.steps (
          continue f
            (continue (λ t. sleep_for out sleep stream failure_of agent agent_name delay) r s₁).0
            (continue (λ t. sleep_for out sleep stream failure_of agent agent_name delay) r s₁).1)
  unfolding sleep_for
  logged-Outcome n d delay attempt last f s follows (err e) s₁ is_err kept =
      raises n (delay + d) s.steps e s₁
        (record { calls_by = rw kept (omega arith); seconds_by = rw kept (omega arith) })
        (inr (inr (attempt, delay, last, s, is_err)))
  logged-Outcome n d delay attempt last f s follows (ok t) s₁ is_ok kept =
      let s₂ = record s₁ { world = sleep delay s₁.world; steps = slept delay ∷ s₁.steps } in
      looser (0 + n) (delay + d) n (delay + d) s.steps _ (omega arith) (omega arith) (
        later 0 delay n d s.steps s₂ _
          (record { calls_by = rw kept (omega arith); seconds_by = rw kept (omega arith) })
          (follows s₂))

  back_off-Outcome :
      (n d delay attempt : ℕ) (last : Option Error) (f : Unit {0} → Exec (StreamState W) Text)
      → ((s' : StreamState W) → Outcome n d s'.steps (f tt s'))
      → (s : StreamState W)
      → Outcome n
          (delay + d)
          s.steps
          ((back_off out sleep stream failure_of agent agent_name attempt delay last >>= f) s)
  unfolding back_off log_retry
  back_off-Outcome n d delay attempt last f follows s = elim (Bool-cases (ltb 0 delay)) [
    | inl wait ↦ rw wait (logged-Outcome n d delay attempt last f s follows _ _ refl refl)
    | inr none_due ↦ rw none_due (
        looser (0 + n) (delay + d) n (delay + d) s.steps _ (omega arith) (omega arith) (
          later 0 delay n d s.steps s _
            (record { calls_by = omega arith; seconds_by = omega arith }) (follows s)))
  ]

  attempts-Outcome :
      (ds : List ℕ) (k : ℕ) (last : Option Error) (s : StreamState W)
      → Outcome
          (length ds)
          (sum ds)
          s.steps
          (attempts out sleep stream failure_of agent agent_name ds k last s)
  unfolding attempts
  attempts-Outcome [] k last s = raises 0 0 s.steps _ s (same s.steps) (inl (_, refl))
  attempts-Outcome (delay ∷ ds) k last s =
      looser (1 + length ds) (delay + (0 + sum ds)) (length (delay ∷ ds)) (sum (delay ∷ ds)) s.steps
        _ (omega arith) (omega arith)
        (back_off-Outcome (1 + length ds) (0 + sum ds) delay k last
          (λ t.
            try_stream out sleep stream failure_of agent agent_name
              (attempts out sleep stream failure_of agent agent_name ds (k + 1)))
          (try-Outcome ds k (length ds) (sum ds) (attempts-Outcome ds (k + 1))) s)

  -- `_stream_with_retry` asks the gateway at most four times and waits fifty seconds at most. What
  -- it returns is not blank and is what its last call answered; what it raises is an `AgentError`, an error of a retry's log event, or
  -- an error of a stream that is neither a transport error nor a status from 500 on.
  pub stream_with_retry-Outcome :
      (s : StreamState W)
      → Outcome 4 50 s.steps (stream_with_retry out sleep stream failure_of agent agent_name s)
  unfolding stream_with_retry
  stream_with_retry-Outcome s = attempts-Outcome backoffs 1 none s
