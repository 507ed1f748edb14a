-- ===== src/Events/Sequence.antt =====
-- events.py: the numbers of the events of one run, over a counter that the gateway shares.
use mathodology.Prelude.{
  ℕ, ◌≤◌, ◌<◌, ◌≡◌, refl, ap, ◌⊎◌, inl, inr, Option, none, some, arith, Bool-cases,
}
use mathodology.Text.{Text}
use mathodology.Exec.{Error, Result, ok, err}
use mathodology.Events.{
  AgentName, EventKind, Payload, AgentEvent, Outside, EventEmitter, stream_key, seq_key,
  events_maxlen, is_persisted, persist, number, emit,
}

-- What the run relies on in Redis, for the number under one key, `counter`, which is read off the
-- world: INCR of that key answers with a number above it, which it then has reached; no call takes it
-- back. Of other keys nothing is asked.
pub record CountsUp {W : Type 0} (out : Outside W) (key : Text) (counter : W → ℕ) : Type 0 where
  pub incr_grows :
      (w w' : W) (n : ℕ) → out.incr key w ≡ (ok n, w') → (counter w < n) × (n ≤ counter w')
  pub incr_fails : (w w' : W) (e : Error) → out.incr key w ≡ (err e, w') → counter w ≤ counter w'
  pub now_keeps : (w : W) → counter w ≤ counter (out.now w).1
  pub append_keeps :
      (path : Text) (event : AgentEvent) (w : W)
      → counter w ≤ counter (out.append_line path event w).1
  pub xadd_keeps :
      (stream : Text) (event : AgentEvent) (n : ℕ) (w : W)
      → counter w ≤ counter (out.xadd stream event n w).1

-- The last number that the emitter drew is one that the counter has reached.
abbrev pub IsCurrent : {W : Type 0} → (W → ℕ) → EventEmitter × W → Type 0
IsCurrent counter (e, w) = e.seq ≤ counter w

module _ {W : Type 0} (out : Outside W) where
  -- What a call of `emit` with these arguments has done, by how it ended.
  abbrev pub Emitted :
      EventKind
      → Payload
      → Option AgentName
      → EventEmitter
      → Result Text × (EventEmitter × W)
      → Type 0
  Emitted kind payload agent e (err x, (e', w')) =
      (e.seq ≤ e'.seq)
      × (((w : W) × ((out.incr (seq_key e) w).0 ≡ err x))
          ⊎ ((event : AgentEvent) × (w : W) × ((out.xadd (stream_key e) event events_maxlen w).0
                ≡ err x)))
  Emitted kind payload agent e (ok id, (e', w')) =
      (event : AgentEvent) × (w : W) × (out.xadd (stream_key e) event events_maxlen w ≡ (ok id, w'))
      × (event.seq ≡ e'.seq)
      × (e.seq < event.seq)
      × (event.run_id ≡ e.run_id)
      × (event.kind ≡ kind)
      × (event.payload ≡ payload)
      × (event.agent ≡ agent)

module _ {W : Type 0} (out : Outside W) (counter : W → ℕ) (e : EventEmitter)
    (up : CountsUp out (seq_key e) counter) where
  persist_keeps :
      (path : Option Text) (event : AgentEvent) (w : W)
      → counter w ≤ counter (persist out path event w)
  persist_keeps none event w = omega arith
  persist_keeps (some path) event w = elim (Bool-cases (is_persisted event.kind)) [
    | inl e ↦ rw e (up.append_keeps path event w)
    | inr e ↦ rw e (omega arith)
  ]

  Emitted-xadd :
      (kind : EventKind) (payload : Payload) (agent : Option AgentName) (n ts : ℕ) (w : W)
      (p : Result Text × W)
      → e.seq < n
      → out.xadd
          (stream_key e)
          (record {
            run_id = e.run_id;
            agent = agent;
            kind = kind;
            seq = n;
            ts = ts;
            payload = payload;
          })
          events_maxlen
          w
        ≡ p
      → Emitted out kind payload agent e (p.0, (record e { seq = n }, p.1))
  Emitted-xadd kind payload agent n ts w (err x, w') lt sent =
      (omega (arith, lt), inr (_, w, ap (λ p. p.0) sent))
  Emitted-xadd kind payload agent n ts w (ok id, w') lt sent =
      (_, w, sent, refl, lt, refl, refl, refl, refl)

  number-Emitted :
      (kind : EventKind) (payload : Payload) (agent : Option AgentName) (w : W) (p : Result ℕ × W)
      → out.incr (seq_key e) w ≡ p
      → IsCurrent counter (e, w)
      → Emitted out kind payload agent e (number out e kind payload agent p.0 p.1)
        × IsCurrent counter (number out e kind payload agent p.0 p.1).1
  number-Emitted kind payload agent w (err x, w') drawn h =
      ((omega arith, inl (w, ap (λ p. p.0) drawn)), omega (arith, up.incr_fails w w' x drawn))
  number-Emitted kind payload agent w (ok n, w') drawn h =
      let grows = up.incr_grows w w' n drawn in
      let event : AgentEvent = record {
        run_id = e.run_id;
        agent = agent;
        kind = kind;
        seq = n;
        ts = (out.now w').0;
        payload = payload;
      } in
      let w'' = persist out e.events_log_path event (out.now w').1 in
      (
        Emitted-xadd kind payload agent n (out.now w').0 w''
            (out.xadd (stream_key e) event events_maxlen w'') (omega (arith, grows.0)) refl,
        omega (
          arith,
          grows.1,
          up.now_keeps w',
          persist_keeps e.events_log_path event (out.now w').1,
          up.xadd_keeps (stream_key e) event events_maxlen w'',
        ),
      )

  -- If INCR of the run's key counts up, which the gateway may call as well, and the counter has
  -- reached the emitter's last number, then after an `emit` it has again, and one that returns has
  -- added to the run's stream the event that it was asked for, under a number above every number that
  -- this emitter drew before; one that raises never takes a number back, and what it raises is an error of
  -- INCR or of XADD, whether or not the events log can be written.
  pub emit_numbers :
      (kind : EventKind) (payload : Payload) (agent : Option AgentName) (w : W)
      → IsCurrent counter (e, w)
      → Emitted out kind payload agent e (emit out kind payload agent (e, w))
        × IsCurrent counter (emit out kind payload agent (e, w)).1
  unfolding emit
  emit_numbers kind payload agent w h =
      number-Emitted kind payload agent w (out.incr (seq_key e) w) refl h
