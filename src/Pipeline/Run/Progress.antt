-- ===== src/Pipeline/Run/Progress.antt =====
-- pipeline.py: how far a run has come, and steps from one stage of it to a later one.
use mathodology.Prelude.{
  ℕ, zero, suc, ◌≤◌, ◌≡◌, ◌∙◌, ◌⊎◌, inl, false, Option, none, some, List, [], ◌∷◌,
}
use mathodology.Exec.{is_agent_error, Result, ok, err, Exec, ◌>>=◌, continue}
use mathodology.Text.{Text, text}
use mathodology.Contracts.{Stage, analyzer, searcher, modeler, coder, writer}
use mathodology.Events.{done, Payload, str}
use mathodology.Pipeline.State.{RunState, Call, emitted}
use mathodology.Pipeline.Quiet.{tally, Quiet}

-- The first `n` stages of the order, newest first.
abbrev pub so_far : ℕ → List Stage
so_far zero = []
so_far (suc zero) = analyzer ∷ []
so_far (suc (suc zero)) = searcher ∷ analyzer ∷ []
so_far (suc (suc (suc zero))) = modeler ∷ searcher ∷ analyzer ∷ []
so_far (suc (suc (suc (suc zero)))) = coder ∷ modeler ∷ searcher ∷ analyzer ∷ []
so_far _ = writer ∷ coder ∷ modeler ∷ searcher ∷ analyzer ∷ []

-- The status that a `done` event reports, its first entry.
abbrev pub status_of : Payload → Option Text
status_of ((key, str status) ∷ rest) = some status
status_of _ = none

module _ {Num : Type 0} where
  -- The first `n` agents were run, in order and once each, and no `done` was emitted.
  abbrev pub Reached : ℕ → List (Call Num) → Type 0
  Reached n cs = tally cs ≡ (so_far n, 0)

  abbrev pub Stopped : List (Call Num) → Type 0
  Stopped cs = (n : ℕ) × (n ≤ 5) × Reached n cs

  -- The newest call is the only `done`, its status is `status`, and `n` agents were run before.
  pub record Closed (status : Text) (n : ℕ) (cs : List (Call Num)) : Type 0 where
    pub payload : Payload
    pub earlier : List (Call Num)
    pub newest : cs ≡ emitted done payload none ∷ earlier
    pub reported : status_of payload ≡ some status
    pub reached : Reached n earlier

  -- The run ended with one `done`: a success after all five agents, or a cancelled or failed run.
  abbrev pub Terminated : List (Call Num) → Type 0
  Terminated cs =
      Closed (text "success") 5 cs
      ⊎ ((n : ℕ) × (n ≤ 5) × (Closed (text "cancelled") n cs ⊎ Closed (text "failed") n cs))

  abbrev pub Finished : {W : Type 0} → Result (Unit {0}) × RunState Num W → Type 0
  Finished (ok t, s) = Terminated s.calls
  Finished (err e, s) = (is_agent_error e ≡ false) × (Stopped s.calls ⊎ Terminated s.calls)

  abbrev pub Arrives : {W B : Type 0} → ℕ → Result B × RunState Num W → Type 0
  Arrives n (ok b, s) = Reached n s.calls
  Arrives n (err e, s) = Stopped s.calls

  -- What the body of the `try` comes to.
  abbrev pub Concludes : {W : Type 0} → Result (Unit {0}) × RunState Num W → Type 0
  Concludes (ok t, s) = Terminated s.calls
  Concludes (err e, s) = Stopped s.calls ⊎ ((is_agent_error e ≡ false) × Terminated s.calls)

-- From `n` agents run, `m` leads to `k` agents run, or stops on the way.
pub record Moves {Num W B : Type 0} (n k : ℕ) (m : Exec (RunState Num W) B) : Type 0 where
  pub moves : (s : RunState Num W) → Reached n s.calls → Arrives k (m s)

pub record Leads {Num W : Type 0} (n : ℕ) (m : Exec (RunState Num W) (Unit {0})) : Type 0 where
  pub leads : (s : RunState Num W) → Reached n s.calls → Concludes (m s)

module _ {Num W : Type 0} where
  pub arrives :
      {B : Type 0} (n : ℕ) (r : Result B) (s : RunState Num W)
      → n ≤ 5
      → Reached n s.calls
      → Arrives n (r, s)
  arrives n (ok b) s few h = h
  arrives n (err e) s few h = (n, few, h)

  pub Moves-Quiet :
      {B : Type 0} {m : Exec (RunState Num W) B} (n : ℕ) → n ≤ 5 → Quiet m → Moves n n m
  Moves-Quiet {m = m} n few q = record {
    moves = λ s h. arrives n (m s).0 (m s).1 few (q.keeps s ∙ h);
  }

  module _ {B C : Type 0} (n k j : ℕ) (f : B → Exec (RunState Num W) C) where
    Moves-continue :
        (r : Result B) (s : RunState Num W)
        → Arrives k (r, s)
        → ((b : B) → Moves k j (f b))
        → Arrives j (continue f r s)
    Moves-continue (ok b) s h g = (g b).moves s h
    Moves-continue (err e) s h g = h

    pub Moves-bind :
        {m : Exec (RunState Num W) B}
        → Moves n k m
        → ((b : B) → Moves k j (f b))
        → Moves n j (m >>= f)
    Moves-bind {m} h g = record { moves = λ s r. Moves-continue (m s).0 (m s).1 (h.moves s r) g }

  module _ {B : Type 0} (n k : ℕ) (f : B → Exec (RunState Num W) (Unit {0})) where
    Leads-continue :
        (r : Result B) (s : RunState Num W)
        → Arrives k (r, s)
        → ((b : B) → Leads k (f b))
        → Concludes (continue f r s)
    Leads-continue (ok b) s h g = (g b).leads s h
    Leads-continue (err e) s h g = inl h

    pub Leads-bind :
        {m : Exec (RunState Num W) B} → Moves n k m → ((b : B) → Leads k (f b)) → Leads n (m >>= f)
    Leads-bind {m} h g = record { leads = λ s r. Leads-continue (m s).0 (m s).1 (h.moves s r) g }
