-- ===== src/Streaming/Tests.antt =====
-- Tests of `_stream_with_retry`: a gateway that answers 502 and then an empty text, for ever.
use mathodology.Prelude.{ℕ, ◌+◌, ◌==◌, if◌then◌else◌, none, []}
use mathodology.Text.{Text, text}
use mathodology.Exec.{Error, other, ok, err, Exec}
use mathodology.Contracts.{analyzer}
use mathodology.Events.{stage}
use mathodology.Events.Tests.{shared}
use mathodology.Streaming.{Failure, http_status, StreamState, stream_with_retry}
use mathodology.Streaming.Retries.{Outcome, stream_with_retry-Outcome}

abbrev flaky : Exec ℕ Text
flaky w =
    (if w == 0 then err (other (text "HTTPStatusError") (text "502 Bad Gateway")) else ok [], w + 1)

abbrev bad_gateway : Error → Failure
bad_gateway e = http_status 502

abbrev start : StreamState ℕ
start = record {
  world = 0;
  emitter = record { run_id = text "r"; seq = 0; events_log_path = none };
  steps = [];
}

stream_with_retry-Outcome_example :
    Outcome shared
      (λ delay w. w)
      flaky
      bad_gateway
      (stage analyzer)
      (text "analyzer")
      4
      50
      []
      (stream_with_retry shared
        (λ delay w. w)
        flaky
        bad_gateway
        (stage analyzer)
        (text "analyzer")
        start)
stream_with_retry-Outcome_example =
    stream_with_retry-Outcome shared (λ delay w. w) flaky bad_gateway (stage analyzer)
      (text "analyzer") start
