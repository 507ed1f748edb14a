-- ===== src/Agent/Outcome.antt =====
-- agents/base.py: how often a method asks the gateway, what it returns and what it raises, for the loop
-- of two attempts that `run` and `revise_with_critique` share.
use mathodology.Prelude.{ℕ, zero, suc, ◌+◌, ◌≤◌, ◌≡◌, sym, List, [], ◌∷◌, ◌++◌, arith}
use mathodology.Text.{Text}
use mathodology.Exec.{
  Error, Result, ok, err, Exec, pure, raise, continue, ◌>>=◌, recover, try_except,
}
use mathodology.Streaming.{StreamState}
use mathodology.Streaming.Retries.{asked, waited}
use mathodology.Agent.{Message, on_parse_error, tries}

-- At most `n` calls of the gateway and `d` seconds of waiting.
pub record Asks {W A : Type 0} (n d : ℕ) (m : Exec (StreamState W) A) : Type 0 where
  pub asks_calls : (s : StreamState W) → asked (m s).1.steps ≤ asked s.steps + n
  pub asks_seconds : (s : StreamState W) → waited (m s).1.steps ≤ waited s.steps + d

module _ {W A B : Type 0} (a b c d : ℕ) where
  continue-Asks :
      (f : A → Exec (StreamState W) B)
      → ((x : A) → Asks c d (f x))
      → (k l : ℕ) (r : Result A × StreamState W) → asked r.1.steps ≤ k + a
      → waited r.1.steps ≤ l + b
      → (asked (continue f r.0 r.1).1.steps ≤ k + (a + c))
        × (waited (continue f r.0 r.1).1.steps ≤ l + (b + d))
  continue-Asks f h k l (ok x, s) le le' =
      (omega (arith, le, (h x).asks_calls s), omega (arith, le', (h x).asks_seconds s))
  continue-Asks f h k l (err e, s) le le' = (omega (arith, le), omega (arith, le'))

  pub bind-Asks :
      (m : Exec (StreamState W) A) (f : A → Exec (StreamState W) B)
      → Asks a b m
      → ((x : A) → Asks c d (f x))
      → Asks (a + c) (b + d) (m >>= f)
  bind-Asks m f h k = record {
    asks_calls = λ s.
        (continue-Asks f k (asked s.steps) (waited s.steps) (m s) (h.asks_calls s)
          (h.asks_seconds s)).0;
    asks_seconds = λ s.
        (continue-Asks f k (asked s.steps) (waited s.steps) (m s) (h.asks_calls s)
          (h.asks_seconds s)).1;
  }

module _ {W A : Type 0} (a b c d : ℕ) where
  recover-Asks :
      (f : Error → Exec (StreamState W) A)
      → ((e : Error) → Asks c d (f e))
      → (k l : ℕ) (r : Result A × StreamState W) → asked r.1.steps ≤ k + a
      → waited r.1.steps ≤ l + b
      → (asked (recover f r.0 r.1).1.steps ≤ k + (a + c))
        × (waited (recover f r.0 r.1).1.steps ≤ l + (b + d))
  recover-Asks f h k l (ok x, s) le le' = (omega (arith, le), omega (arith, le'))
  recover-Asks f h k l (err e, s) le le' =
      (omega (arith, le, (h e).asks_calls s), omega (arith, le', (h e).asks_seconds s))

  try_except-Asks :
      (m : Exec (StreamState W) A) (f : Error → Exec (StreamState W) A)
      → Asks a b m
      → ((e : Error) → Asks c d (f e))
      → Asks (a + c) (b + d) (try_except m f)
  try_except-Asks m f h k = record {
    asks_calls = λ s.
        (recover-Asks f k (asked s.steps) (waited s.steps) (m s) (h.asks_calls s)
          (h.asks_seconds s)).0;
    asks_seconds = λ s.
        (recover-Asks f k (asked s.steps) (waited s.steps) (m s) (h.asks_calls s)
          (h.asks_seconds s)).1;
  }

pub looser :
    {W A : Type 0} (a b c d : ℕ) (m : Exec (StreamState W) A)
    → a ≤ c
    → b ≤ d
    → Asks a b m
    → Asks c d m
looser a b c d m ac bd h = record {
  asks_calls = λ s. omega (arith, ac, h.asks_calls s);
  asks_seconds = λ s. omega (arith, bd, h.asks_seconds s);
}

pub pure-Asks : {W A : Type 0} (c d : ℕ) (x : A) → Asks {W = W} c d (pure x)
pure-Asks c d x = record { asks_calls = λ s. omega arith; asks_seconds = λ s. omega arith }

pub raise-Asks : {W A : Type 0} (c d : ℕ) (e : Error) → Asks {W = W} {A = A} c d (raise e)
raise-Asks c d e = record { asks_calls = λ s. omega arith; asks_seconds = λ s. omega arith }

-- What is returned satisfies `Q`, with the state it is returned in.
pub record Settles {W A : Type 0} (Q : A → StreamState W → Type 0) (m : Exec (StreamState W) A)
    : Type 0 where
  pub settled : (s : StreamState W) (x : A) → (m s).0 ≡ ok x → Q x (m s).1

-- No AgentParseError is raised.
pub record ParsesOrFails {W A : Type 0} (m : Exec (StreamState W) A) : Type 0 where
  pub no_parse_error :
      (s : StreamState W) (t : Text) → (m s).0 ≡ err (Error.agent_parse_error t) → ⊥

pub ok_err : {A : Type 0} {x : A} {e : Error} → ok x ≡ err e → ⊥
ok_err h = cc

pub ok_injective : {A : Type 0} {x y : A} → ok x ≡ ok y → x ≡ y
ok_injective h = cc

pub other_error :
    {A : Type 0} (e : Error)
    → ((t : Text) → e ≡ Error.agent_parse_error t → ⊥)
    → (t : Text) → ◌≡◌ {A = Result A} (err e) (err (Error.agent_parse_error t))
    → ⊥
other_error e h t q = h t cc

-- `n` for each attempt.
abbrev pub each : ℕ → ℕ → ℕ
each zero n = 0
each (suc k) n = n + each k n

pub raise-Settles :
    {W A : Type 0} (Q : A → StreamState W → Type 0) (e : Error) → Settles Q (raise e)
raise-Settles Q e = record { settled = λ s x h. absurd (ok_err (sym h)) }

module _ {W A : Type 0} (next : Text → Exec (StreamState W) A) where
  on_parse_error-Asks :
      (n d : ℕ) → ((t : Text) → Asks n d (next t)) → (e : Error) → Asks n d (on_parse_error next e)
  on_parse_error-Asks n d h (Error.agent_parse_error m) = h m
  on_parse_error-Asks n d h (Error.agent_error m) = raise-Asks n d _
  on_parse_error-Asks n d h (Error.run_cancelled m) = raise-Asks n d _
  on_parse_error-Asks n d h (Error.other c m) = raise-Asks n d _

  on_parse_error-Settles :
      (Q : A → StreamState W → Type 0)
      → ((t : Text) → Settles Q (next t))
      → (e : Error) → Settles Q (on_parse_error next e)
  on_parse_error-Settles Q h (Error.agent_parse_error m) = h m
  on_parse_error-Settles Q h (Error.agent_error m) = raise-Settles Q _
  on_parse_error-Settles Q h (Error.run_cancelled m) = raise-Settles Q _
  on_parse_error-Settles Q h (Error.other c m) = raise-Settles Q _

  on_parse_error-ParsesOrFails :
      ((t : Text) → ParsesOrFails (next t)) → (e : Error) → ParsesOrFails (on_parse_error next e)
  on_parse_error-ParsesOrFails h (Error.agent_parse_error m) = h m
  on_parse_error-ParsesOrFails h (Error.agent_error m) = record {
    no_parse_error = λ s t q. other_error _ (λ t. cc) t q;
  }
  on_parse_error-ParsesOrFails h (Error.run_cancelled m) = record {
    no_parse_error = λ s t q. other_error _ (λ t. cc) t q;
  }
  on_parse_error-ParsesOrFails h (Error.other c m) = record {
    no_parse_error = λ s t q. other_error _ (λ t. cc) t q;
  }

module _ {W A : Type 0} (Q : A → StreamState W → Type 0) (f : Error → Exec (StreamState W) A) where
  recover-Settles :
      ((e : Error) → Settles Q (f e))
      → (r : Result A × StreamState W) → ((x : A) → r.0 ≡ ok x → Q x r.1)
      → (x : A) → (recover f r.0 r.1).0 ≡ ok x
      → Q x (recover f r.0 r.1).1
  recover-Settles h (ok y, s) q x e = q x e
  recover-Settles h (err e, s) q x p = (h e).settled s x p

  recover-ParsesOrFails :
      ((e : Error) → ParsesOrFails (f e))
      → (r : Result A × StreamState W) → (t : Text)
      → (recover f r.0 r.1).0 ≡ err (Error.agent_parse_error t)
      → ⊥
  recover-ParsesOrFails h (ok y, s) t e = ok_err e
  recover-ParsesOrFails h (err e, s) t p = (h e).no_parse_error s t p

module _ {W A : Type 0} (body : List Message → Exec (StreamState W) A) (again : Text → Message)
    (give_up : Text → Exec (StreamState W) A) where
  pub tries-Asks :
      (n d : ℕ)
      → ((ms : List Message) → Asks n d (body ms))
      → ((t : Text) → Asks 0 0 (give_up t))
      → (k : ℕ) (last : Text) (ms : List Message)
      → Asks (each k n) (each k d) (tries body again give_up k last ms)
  unfolding tries
  tries-Asks n d h g zero last ms = g last
  tries-Asks n d h g (suc k) last ms =
      try_except-Asks n d (each k n) (each k d) _ _ (h ms)
        (on_parse_error-Asks _ _ _ (λ e. tries-Asks n d h g k e (ms ++ again e ∷ [])))

  pub tries-Settles :
      (Q : A → StreamState W → Type 0)
      → ((ms : List Message) → Settles Q (body ms))
      → ((t : Text) → Settles Q (give_up t))
      → (k : ℕ) (last : Text) (ms : List Message) → Settles Q (tries body again give_up k last ms)
  unfolding tries
  tries-Settles Q h g zero last ms = g last
  tries-Settles Q h g (suc k) last ms = record {
    settled = λ s.
        recover-Settles Q _
          (on_parse_error-Settles _ Q (λ e. tries-Settles Q h g k e (ms ++ again e ∷ [])))
          (body ms s) ((h ms).settled s);
  }

  pub tries-ParsesOrFails :
      ((t : Text) → ParsesOrFails (give_up t))
      → (k : ℕ) (last : Text) (ms : List Message)
      → ParsesOrFails (tries body again give_up k last ms)
  unfolding tries
  tries-ParsesOrFails g zero last ms = g last
  tries-ParsesOrFails g (suc k) last ms = record {
    no_parse_error = λ s.
        recover-ParsesOrFails (λ _ _. Unit) _
          (on_parse_error-ParsesOrFails _ (λ e. tries-ParsesOrFails g k e (ms ++ again e ∷ [])))
          (body ms s);
  }
