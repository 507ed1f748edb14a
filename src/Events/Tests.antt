-- ===== src/Events/Tests.antt =====
-- Tests of events.py on a counter that other writers share.
use mathodology.Prelude.{ℕ, ◌+◌, ◌≤◌, ◌<◌, ◌≡◌, refl, ap, if◌then◌else◌, arith, none, some, [], ◌∷◌}
use mathodology.Text.{text, ◌=ₜ◌}
use mathodology.Exec.{Error, ok, err}
use mathodology.Events.{
  audit, log, token, Payload, Value, Outside, EventEmitter, is_persisted, seq_key, emit,
}
use mathodology.Events.Sequence.{CountsUp, IsCurrent, Emitted, emit_numbers}

-- The world is the counter; each call of the emitter finds two numbers taken by the gateway.
abbrev pub shared : Outside ℕ
shared = record {
  incr = λ key w. (ok (w + 3), w + 3);
  now = λ w. (0, w);
  append_line = λ path event w. (none, w);
  xadd = λ key event n w. (ok (text "0-1"), w);
}

abbrev fresh : EventEmitter
fresh = record { run_id = text "r"; seq = 0; events_log_path = some (text "events.jsonl") }

abbrev hello : Payload
hello = (text "level", Value.str (text "info")) ∷ []

-- Two keys with a counter each, and a log that cannot be written.
abbrev redis : Outside (ℕ × ℕ)
redis = record {
  incr = λ key w.
      if key =ₜ text "mm:seq:r"
      then (ok (w.0 + 3), (w.0 + 3, w.1))
      else (ok (w.1 + 1), (w.0, w.1 + 1));
  now = λ w. (0, w);
  append_line = λ path event w. (none, w);
  xadd = λ key event n w. (ok (text "0-1"), w);
}

ok_injective : {a b : ℕ} → ok a ≡ ok b → a ≡ b
ok_injective h = cc

ok_err : {n : ℕ} {e : Error} → ok n ≡ err e → ⊥
ok_err h = cc

drawn : (k n m : ℕ) → ok (k + 3) ≡ ok n → k + 3 ≡ m → (k < n) × (n ≤ m)
drawn k n m a b = let c : k + 3 ≡ n = ok_injective a in (omega (arith, c), omega (arith, c, b))

redis-CountsUp : CountsUp redis (seq_key fresh) (λ w. w.0)
redis-CountsUp = record {
  incr_grows = λ w w' n h. drawn w.0 n w'.0 (ap (λ p. p.0) h) (ap (λ p. p.1.0) h);
  incr_fails = λ w w' x h. absurd (ok_err (ap (λ p. p.0) h));
  now_keeps = λ w. omega arith;
  append_keeps = λ path event w. omega arith;
  xadd_keeps = λ stream event n w. omega arith;
}

emit_numbers_example :
    Emitted redis log hello (some audit) fresh (emit redis log hello (some audit) (fresh, (4, 9)))
    × IsCurrent (λ w. w.0) (emit redis log hello (some audit) (fresh, (4, 9))).1
emit_numbers_example =
    emit_numbers redis (λ w. w.0) fresh redis-CountsUp log hello (some audit) (4, 9) (omega arith)

-- The event that is sent carries the number that INCR gave.
emit_draws :
    emit shared token hello (some audit) (fresh, 4)
    ≡ (ok (text "0-1"), (record fresh { seq = 7 }, 7))
unfolding emit is_persisted
emit_draws = refl
