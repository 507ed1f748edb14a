-- ===== src/Agent/Tests.antt =====
-- agents/base.py: a model that answers in prose first and with fenced JSON when it is told so.
use mathodology.Prelude.{
  ℕ, ◌+◌, ◌≤◌, ◌≡◌, refl, none, some, List, [], ◌∷◌, inl, inr, length, ◌==◌, if◌then◌else◌,
}
use mathodology.Text.{Text, text, ◌=ₜ◌, strip, lstrip, rstrip, join, decimal}
use mathodology.Exec.{Error, ok, err, Exec}
use mathodology.Contracts.{analyzer}
use mathodology.Events.{stage, Value, emit, is_persisted}
use mathodology.Events.Tests.{shared}
use mathodology.Fence.{strip_json_fence}
use mathodology.Streaming.{Failure, http_status, StreamState, stream_with_retry, attempts, back_off}
use mathodology.Streaming.Retries.{asked, waited}
use mathodology.Agent.{
  Message, Reader, Loc, format_validation_error, parse_json_lenient, parse_output, tries, run,
  revise_with_critique,
}
use mathodology.Agent.Reply.{Read}
use mathodology.Agent.Run.{revise_with_critique_outcome}

abbrev prose_first : List Message → Exec ℕ Text
prose_first messages w =
    (ok (if length messages == 2 then text "Sure, here it is" else text "```json\n{}\n```"), w + 1)

abbrev sample_reader : Reader Text Text
sample_reader = record {
  loads = λ t. if t =ₜ text "{}" then some t else none;
  raw_decode = λ t. inl (0, text "Expecting value");
  validate = λ obj. inr obj;
  schema_name = text "AnalyzerOutput";
  dump = λ o. Value.str o;
}

abbrev never_waits : ℕ → ℕ → ℕ
never_waits delay w = w

abbrev bad_gateway : Error → Failure
bad_gateway e = http_status 502

abbrev milliseconds : ℕ → ℕ
milliseconds w = w

abbrev start : StreamState ℕ
start = record {
  world = 0;
  emitter = record { run_id = text "r"; seq = 0; events_log_path = none };
  steps = [];
}

abbrev analyze : Exec (StreamState ℕ) Text
analyze =
    run shared never_waits prose_first bad_gateway (stage analyzer) (text "analyzer") sample_reader
      milliseconds (text "You analyze.") (text "The problem")

abbrev revise : Exec (StreamState ℕ) Text
revise =
    revise_with_critique shared never_waits prose_first bad_gateway (stage analyzer)
      (text "analyzer") sample_reader milliseconds (text "You analyze.") (text "{}") (text "{}")
      (text "{}")

revise_with_critique_outcome_example :
    (asked (revise start).1.steps ≤ 8)
    × (waited (revise start).1.steps ≤ 100)
    × ((o : Text)
        → (revise start).0 ≡ ok o
        → Read shared never_waits prose_first bad_gateway
            (stage analyzer)
            (text "analyzer")
            sample_reader
            milliseconds
            o
            (revise start).1)
    × ((t : Text) → (revise start).0 ≡ err (Error.agent_parse_error t) → ⊥)
revise_with_critique_outcome_example =
    revise_with_critique_outcome shared never_waits prose_first bad_gateway (stage analyzer)
      (text "analyzer") sample_reader milliseconds (text "You analyze.") [] (text "{}") (text "{}")
      (text "{}") start refl

-- The second reply is read.
second_reply : (analyze start).0 ≡ ok (text "{}")
unfolding run tries parse_output parse_json_lenient strip_json_fence emit is_persisted strip lstrip
    rstrip stream_with_retry attempts back_off
second_reply = refl

missing_field :
    format_validation_error [] (
      record {
        loc = Loc.key (text "refs") ∷ Loc.index 0 ∷ [];
        issue_type = text "missing";
        msg = [];
        input = none;
      }
      ∷ [])
    ≡ text "1 validation issue(s):\n- Required field `refs.[0]` is missing"
unfolding format_validation_error join decimal
missing_field = refl
