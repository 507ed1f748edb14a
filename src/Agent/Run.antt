-- ===== src/Agent/Run.antt =====
-- agents/base.py: what `BaseAgent.run` and `revise_with_critique` return or raise, and how often they ask
-- the gateway.
use mathodology.Prelude.{ℕ, ◌+◌, ◌≤◌, ◌≡◌, refl, ap, List, [], inr, some, arith}
use mathodology.Text.{Text}
use mathodology.Exec.{Error, ok, err, Exec}
use mathodology.Events.{AgentName, Outside}
use mathodology.Streaming.{Failure, Step, streamed, StreamState}
use mathodology.Streaming.Retries.{asked, waited, latest}
use mathodology.Agent.{
  Message, Reader, parse_output, ask_once, opening_messages, emit_parsed, again_revision,
  give_up_revision, revise_with_critique, revision_content,
}
use mathodology.Agent.Reply.{Read, ask_once-Asks, ask_once-Settles}
use mathodology.Agent.Outcome.{
  raise-Asks, raise-Settles, tries-Asks, tries-Settles, tries-ParsesOrFails, other_error,
}

none_before :
    (f : List Step → ℕ) (k n : ℕ) (steps : List Step)
    → steps ≡ []
    → f [] ≡ 0
    → k ≤ f steps + n
    → k ≤ n
none_before f k n steps none_made starts le = omega (arith, ap f none_made, starts, le)

module _ {W Json Out : Type 0} (out : Outside W) (sleep : ℕ → W → W)
    (stream : List Message → Exec W Text) (failure_of : Error → Failure) (agent : AgentName)
    (agent_name : Text) (reader : Reader Json Out) (elapsed : W → ℕ)
    (prompt user_content : Text) where
  -- The output was read from the answer to the last call, and `agent.output` and then `stage.done` were
  -- the last that the agent did: the state is the one that they leave.
  pub record Published (o : Out) (s : StreamState W) : Type 0 where
    pub reply : Text
    pub reply_read : parse_output reader reply ≡ inr o
    pub before_events : StreamState W
    pub reply_given : latest before_events.steps ≡ some (streamed (ok reply))
    pub events_done :
        emit_parsed out sleep stream failure_of agent agent_name reader elapsed prompt user_content
          o before_events
        ≡ (ok o, s)

  -- From no calls made, `revise_with_critique` asks the gateway at most eight times and waits a hundred
  -- seconds at most. What it returns was read from what the gateway answered to the last of these
  -- calls; what it raises is never an AgentParseError.
  pub revise_with_critique_outcome :
      (context original critique : Text) (s : StreamState W)
      → s.steps ≡ []
      → (asked
            (revise_with_critique out sleep stream failure_of agent agent_name reader elapsed prompt
              context original critique s).1.steps
          ≤ 8)
        × (waited
              (revise_with_critique out sleep stream failure_of agent agent_name reader elapsed
                prompt context original critique s).1.steps
            ≤ 100)
        × ((o : Out)
            → (revise_with_critique out sleep stream failure_of agent agent_name reader elapsed
                prompt context original critique s).0
              ≡ ok o
            → Read out sleep stream failure_of agent agent_name reader elapsed o
                (revise_with_critique out sleep stream failure_of agent agent_name reader elapsed
                  prompt context original critique s).1)
        × ((t : Text)
            → (revise_with_critique out sleep stream failure_of agent agent_name reader elapsed
                prompt context original critique s).0
              ≡ err (Error.agent_parse_error t)
            → ⊥)
  unfolding revise_with_critique
  revise_with_critique_outcome context original critique s none_made =
      let asks =
        tries-Asks (ask_once out sleep stream failure_of agent agent_name reader elapsed)
          (again_revision out sleep stream failure_of agent agent_name reader elapsed)
          (give_up_revision out sleep stream failure_of agent agent_name reader elapsed) 4 50
          (ask_once-Asks out sleep stream failure_of agent agent_name reader elapsed)
          (λ t. raise-Asks 0 0 _) 2 []
          (opening_messages prompt (
            revision_content out sleep stream failure_of agent agent_name reader elapsed context
              original critique)) in
      let settles =
        tries-Settles (ask_once out sleep stream failure_of agent agent_name reader elapsed)
          (again_revision out sleep stream failure_of agent agent_name reader elapsed)
          (give_up_revision out sleep stream failure_of agent agent_name reader elapsed)
          (Read out sleep stream failure_of agent agent_name reader elapsed)
          (ask_once-Settles out sleep stream failure_of agent agent_name reader elapsed)
          (λ t. raise-Settles (Read out sleep stream failure_of agent agent_name reader elapsed) _)
          2 []
          (opening_messages prompt (
            revision_content out sleep stream failure_of agent agent_name reader elapsed context
              original critique)) in
      let parses =
        tries-ParsesOrFails (ask_once out sleep stream failure_of agent agent_name reader elapsed)
          (again_revision out sleep stream failure_of agent agent_name reader elapsed)
          (give_up_revision out sleep stream failure_of agent agent_name reader elapsed)
          (λ t. record { no_parse_error = λ s u q. other_error _ (λ v. cc) u q }) 2 []
          (opening_messages prompt (
            revision_content out sleep stream failure_of agent agent_name reader elapsed context
              original critique)) in
      (
        none_before asked _ 8 s.steps none_made refl (asks.asks_calls s),
        none_before waited _ 100 s.steps none_made refl (asks.asks_seconds s),
        settles.settled s,
        parses.no_parse_error s,
      )
