-- ===== src/Streaming.antt =====
-- agents/base.py: `_stream_with_retry`. One call of the gateway's `stream_completion`, with its parts
-- joined, is the argument `stream`; `failure_of` tells what `httpx` calls an exception.
pub mod Retries
pub mod Tests
use mathodology.Prelude.{
  ℕ, zero, suc, ◌+◌, Bool, true, false, Option, none, some, List, [], ◌∷◌, ◌++◌, ltb, if◌then◌else◌,
  length,
}
use mathodology.Text.{Text, text, truthy, strip, decimal}
use mathodology.Exec.{
  Error, agent_error, other, class_name, message, Result, ok, err, Exec, pure, raise, ◌>>=◌, ◌>>◌,
}
use mathodology.Events.{AgentName, EventKind, Payload, Value, Outside, EventEmitter, emit}

-- What the `except` clauses tell apart: the four transport errors, an HTTP status, all else.
pub data Failure : Type 0 where
  transport : Failure
  http_status : ℕ → Failure
  unknown : Failure

-- What was done to the outside, newest first: a call, with its answer, or a wait.
pub data Step : Type 0 where
  streamed : Result Text → Step
  slept : ℕ → Step

pub record StreamState (W : Type 0) : Type 0 where
  pub world : W
  pub emitter : EventEmitter
  pub steps : List Step

-- `BACKOFFS`
abbrev pub backoffs : List ℕ
backoffs = 0 ∷ 5 ∷ 15 ∷ 30 ∷ []

abbrev pub last_class : Option Error → Text
last_class none = text "empty"
last_class (some e) = class_name e

abbrev pub last_message : Option Error → Text
last_message none = text "None"
last_message (some e) = message e

abbrev pub empty_stream : Error
empty_stream = other (text "RuntimeError") (text "upstream returned empty 200 OK response")

abbrev retry_payload : ℕ → ℕ → Option Error → Payload
retry_payload attempt delay last =
    (text "level", Value.str (text "warning"))
    ∷ (
      text "message",
      Value.str (
          text "stream retry attempt "
          ++ decimal attempt
          ++ text "/"
          ++ decimal (length backoffs)
          ++ text " after "
          ++ decimal delay
          ++ text "s backoff (last: "
          ++ last_class last
          ++ text ")"),
    )
    ∷ []

module _ {W : Type 0} (out : Outside W) (sleep : ℕ → W → W) (stream : Exec W Text)
    (failure_of : Error → Failure) (agent : AgentName) (agent_name : Text) where
  abbrev pub drop_id : Result Text → Result (Unit {0})
  drop_id (ok t) = ok tt
  drop_id (err e) = err e

  pub log_retry : ℕ → ℕ → Option Error → Exec (StreamState W) (Unit {0})
  log_retry attempt delay last s =
      let (r, (e', w')) =
        emit out EventKind.log (retry_payload attempt delay last) (some agent)
          (s.emitter, s.world) in
      (drop_id r, record s { world = w'; emitter = e' })

  pub sleep_for : ℕ → Exec (StreamState W) (Unit {0})
  sleep_for delay s =
      (ok tt, record s { world = sleep delay s.world; steps = slept delay ∷ s.steps })

  -- The wait before an attempt.
  unfoldable pub back_off : ℕ → ℕ → Option Error → Exec (StreamState W) (Unit {0})
  back_off attempt delay last =
      if ltb 0 delay then (log_retry attempt delay last >> sleep_for delay) else pure tt

  abbrev pub call_stream : StreamState W → Result Text × StreamState W
  call_stream s =
      let (r, w') = stream s.world in (r, record s { world = w'; steps = streamed r ∷ s.steps })

  abbrev pub on_failure :
      (Option Error → Exec (StreamState W) Text) → Error → Failure → Exec (StreamState W) Text
  on_failure next e transport = next (some e)
  on_failure next e (http_status code) = if ltb code 500 then raise e else next (some e)
  on_failure next e unknown = raise e

  -- What follows a call: the text, another attempt, or the exception.
  abbrev pub on_reply :
      (Option Error → Exec (StreamState W) Text) → Result Text → Exec (StreamState W) Text
  on_reply next (ok t) = if truthy (strip t) then pure t else next (some empty_stream)
  on_reply next (err e) = on_failure next e (failure_of e)

  abbrev pub try_stream : (Option Error → Exec (StreamState W) Text) → Exec (StreamState W) Text
  try_stream next s = let (r, s') = call_stream s in on_reply next r s'

  -- The loop, by the delays that are left.
  unfoldable pub attempts : List ℕ → ℕ → Option Error → Exec (StreamState W) Text
  attempts [] attempt last = raise (
      agent_error (
        agent_name
        ++ text " stream failed after "
        ++ decimal (length backoffs)
        ++ text " attempts: "
        ++ last_message last))
  attempts (delay ∷ delays) attempt last =
      back_off attempt delay last >> try_stream (attempts delays (attempt + 1))

  -- `_stream_with_retry`
  unfoldable pub stream_with_retry : Exec (StreamState W) Text
  stream_with_retry = attempts backoffs 1 none
