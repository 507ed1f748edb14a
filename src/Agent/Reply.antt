-- ===== src/Agent/Reply.antt =====
-- agents/base.py: one reply, asked for and parsed.
use mathodology.Prelude.{ℕ, ◌+◌, ◌≡◌, refl, sym, ap, ◌∙◌, List, ◌⊎◌, inl, inr, some, arith}
use mathodology.Text.{Text}
use mathodology.Exec.{Error, Result, ok, err, Exec, continue}
use mathodology.Events.{AgentName, EventKind, Payload, Outside}
use mathodology.Streaming.{Failure, streamed, StreamState}
use mathodology.Streaming.Retries.{latest, stream_with_retry-Outcome}
use mathodology.Agent.{Message, Reader, parse_output, stream_and_collect, emit_as, parsed, ask_once}
use mathodology.Agent.Outcome.{
  Asks, bind-Asks, looser, pure-Asks, raise-Asks, Settles, ok_err, ok_injective,
}

module _ {W Json Out : Type 0} (out : Outside W) (sleep : ℕ → W → W)
    (stream : List Message → Exec W Text) (failure_of : Error → Failure) (agent : AgentName)
    (agent_name : Text) (reader : Reader Json Out) (elapsed : W → ℕ) where
  -- The output was read from the answer to the last call.
  unfoldable pub Read : Out → StreamState W → Type 0
  Read o s =
      (t : Text) × (latest s.steps ≡ some (streamed (ok t))) × (parse_output reader t ≡ inr o)

  pub emit-Asks :
      (kind : EventKind) (payload : Payload)
      → Asks 0 0 (emit_as out sleep stream failure_of agent agent_name reader elapsed kind payload)
  emit-Asks kind payload = record { asks_calls = λ s. omega arith; asks_seconds = λ s. omega arith }

  parsed-Asks :
      (r : Text ⊎ Out)
      → Asks 0 0 (parsed out sleep stream failure_of agent agent_name reader elapsed r)
  parsed-Asks (inl e) = raise-Asks 0 0 _
  parsed-Asks (inr o) = pure-Asks 0 0 o

  pub ask_once-Asks :
      (ms : List Message)
      → Asks 4 50 (ask_once out sleep stream failure_of agent agent_name reader elapsed ms)
  ask_once-Asks ms = looser (4 + 0) (50 + 0) 4 50 _ (omega arith) (omega arith) (
      bind-Asks 4 50 0 0 _ _
        (record {
          asks_calls = λ s.
              (stream_with_retry-Outcome out sleep (stream ms) failure_of agent agent_name s).calls;
          asks_seconds = λ s.
              (stream_with_retry-Outcome out sleep (stream ms) failure_of agent agent_name
                s).seconds;
        })
        (λ t. parsed-Asks (parse_output reader t)))

  parsed-Settles :
      (t : Text) (s : StreamState W) (o : Out) (r : Text ⊎ Out)
      → parse_output reader t ≡ r
      → latest s.steps ≡ some (streamed (ok t))
      → (parsed out sleep stream failure_of agent agent_name reader elapsed r s).0 ≡ ok o
      → Read o (parsed out sleep stream failure_of agent agent_name reader elapsed r s).1
  unfolding Read
  parsed-Settles t s o (inl e) q given h = absurd (ok_err (sym h))
  parsed-Settles t s o (inr p) q given h = (t, given, q ∙ ap inr (ok_injective h))

  ask_once-Settles_after :
      (r : Result Text × StreamState W)
      → ((t : Text) → r.0 ≡ ok t → latest r.1.steps ≡ some (streamed (ok t)))
      → (o : Out)
      → (continue
          (λ t.
            parsed out sleep stream failure_of agent agent_name reader elapsed
              (parse_output reader t))
          r.0
          r.1).0
        ≡ ok o
      → Read o
          (continue
            (λ t.
              parsed out sleep stream failure_of agent agent_name reader elapsed
                (parse_output reader t))
            r.0
            r.1).1
  ask_once-Settles_after (ok t, s) given o h =
      parsed-Settles t s o (parse_output reader t) refl (given t refl) h
  ask_once-Settles_after (err e, s) given o h = absurd (ok_err (sym h))

  pub ask_once-Settles :
      (ms : List Message)
      → Settles Read (ask_once out sleep stream failure_of agent agent_name reader elapsed ms)
  ask_once-Settles ms = record {
    settled = λ s.
        ask_once-Settles_after
          (stream_and_collect out sleep stream failure_of agent agent_name reader elapsed ms s)
          (λ t h.
            ((stream_with_retry-Outcome out sleep (stream ms) failure_of agent agent_name
                s).returned
              t h).1);
  }
