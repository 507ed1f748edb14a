-- ===== src/Events.antt =====
-- events.py: the per-run emitter, and the envelope of mm_contracts/agent_io.py. Redis, the clock and
-- the file system are outside: `Outside W` gives their calls on the state `W` of everything outside.
pub mod Sequence
pub mod Tests
use mathodology.Prelude.{
  ℕ, Bool, true, false, Option, none, some, List, [], ◌∷◌, ◌++◌, ◌&&◌, if◌then◌else◌,
}
use mathodology.Text.{Text, text}
use mathodology.Exec.{Error, Result, ok, err, Exec, ◌>>=◌, ◌>>◌, pure}
use mathodology.Contracts.{Stage, analyzer, searcher, modeler, coder, writer}

-- `AgentName`: the five stages, and the agents that no Critic reviews.
pub data AgentName : Type 0 where
  stage : Stage → AgentName
  critic paper_editor audit : AgentName

-- `EventKind`
pub data EventKind : Type 0 where
  stage_start stage_done log token cost : EventKind
  finetune_session_start finetune_session_done finetune_session_error : EventKind
  finetune_tool_call finetune_tool_result finetune_token : EventKind
  agent_output kernel_stdout kernel_figure kernel_error error done : EventKind

-- The values that the worker puts into a payload.
pub data Value : Type 0 where
  null : Value
  str : Text → Value
  int : ℕ → Value
  bool : Bool → Value

abbrev pub Payload : Type 0
Payload = List (Text × Value)

pub record AgentEvent : Type 0 where
  pub run_id : Text
  pub agent : Option AgentName
  pub kind : EventKind
  pub seq : ℕ
  pub ts : ℕ
  pub payload : Payload

abbrev pub events_maxlen : ℕ
events_maxlen = 5000

-- `kind in _PERSISTED_KINDS`
unfoldable pub is_persisted : EventKind → Bool
is_persisted stage_start = true
is_persisted stage_done = true
is_persisted agent_output = true
is_persisted error = true
is_persisted log = true
is_persisted cost = true
is_persisted done = true
is_persisted kernel_figure = true
is_persisted finetune_session_start = true
is_persisted finetune_session_done = true
is_persisted finetune_session_error = true
is_persisted finetune_tool_call = true
is_persisted finetune_tool_result = true
is_persisted token = false
is_persisted finetune_token = false
is_persisted kernel_stdout = false
is_persisted kernel_error = false

pub record Outside (W : Type 0) : Type 0 where
  -- `INCR key`
  pub incr : Text → Exec W ℕ
  -- `datetime.now(UTC)`
  pub now : W → ℕ × W
  -- one more line in the events log; `none` is an `OSError`
  pub append_line : Text → AgentEvent → W → Option (Unit {0}) × W
  -- `XADD key MAXLEN ~ n`, which returns the id of the entry
  pub xadd : Text → AgentEvent → ℕ → Exec W Text

pub record EventEmitter : Type 0 where
  pub run_id : Text
  pub seq : ℕ
  pub events_log_path : Option Text

abbrev pub stream_key : EventEmitter → Text
stream_key e = text "mm:events:" ++ e.run_id

abbrev pub seq_key : EventEmitter → Text
seq_key e = text "mm:seq:" ++ e.run_id

module _ {W : Type 0} (out : Outside W) where
  -- The forensic copy; `except OSError: pass`
  abbrev pub persist : Option Text → AgentEvent → W → W
  persist none event w = w
  persist (some path) event w =
      if is_persisted event.kind then (out.append_line path event w).1 else w

  abbrev pub deliver : EventEmitter → AgentEvent → Exec (EventEmitter × W) Text
  deliver e event (e', w) =
      let (r, w') =
        out.xadd (stream_key e) event events_maxlen (persist e.events_log_path event w) in
      (r, (e', w'))

  abbrev pub number :
      EventEmitter
      → EventKind
      → Payload
      → Option AgentName
      → Result ℕ
      → W
      → Result Text × (EventEmitter × W)
  number e kind payload agent (err x) w = (err x, (e, w))
  number e kind payload agent (ok n) w =
      let e' = record e { seq = n } in
      let (ts, w') = out.now w in
      deliver e'
        (record {
          run_id = e.run_id;
          agent = agent;
          kind = kind;
          seq = n;
          ts = ts;
          payload = payload;
        })
        (e', w')

  -- `EventEmitter.emit`
  unfoldable pub emit : EventKind → Payload → Option AgentName → Exec (EventEmitter × W) Text
  emit kind payload agent (e, w) =
      let (n, w') = out.incr (seq_key e) w in number e kind payload agent n w'
