-- ===== src/Agent.antt =====
-- agents/base.py: `BaseAgent.run` and `revise_with_critique`, over the streaming call of Streaming, and
-- how a reply is parsed. Durations are read off the outside by `elapsed`.
pub mod Outcome
pub mod Reply
pub mod Run
pub mod Tests
use mathodology.Prelude.{
  ℕ, zero, suc, ◌+◌, Bool, true, false, ◌||◌, Option, none, some, List, [], ◌∷◌, ◌++◌, ◌⊎◌, inl,
  inr, if◌then◌else◌, length, map,
}
use mathodology.Text.{Text, text, ◌=ₜ◌, truthy, join, decimal, newline}
use mathodology.Text.Match.{contains}
use mathodology.Exec.{Error, Result, Exec, pure, raise, ◌>>=◌, ◌>>◌, recover, try_except}
use mathodology.Events.{AgentName, EventKind, Payload, Value, Outside, emit}
use mathodology.Fence.{strip_json_fence}
use mathodology.Streaming.{Failure, StreamState, drop_id, stream_with_retry}

-- A part of the location of a validation issue.
pub data Loc : Type 0 where
  index : ℕ → Loc
  key : Text → Loc

-- An issue of pydantic; the input by its type's name and its `repr`, unless it is `None`.
pub record Issue : Type 0 where
  pub loc : List Loc
  pub issue_type : Text
  pub msg : Text
  pub input : Option (Text × Text)

abbrev loc_part : Loc → Text
loc_part (index n) = text "[" ++ (decimal n ++ text "]")
loc_part (key k) = k

abbrev loc_text : List Loc → Text
loc_text loc = let t = join (text ".") (map loc_part loc) in if truthy t then t else text "<root>"

abbrev got_text : Option (Text × Text) → Text
got_text none = text "null"
got_text (some (name, shown)) = name ++ (text " " ++ shown)

abbrev issue_line : Issue → Text
issue_line i =
    if i.issue_type =ₜ text "missing"
    then text "- Required field `" ++ (loc_text i.loc ++ text "` is missing")
    else if i.issue_type =ₜ text "extra_forbidden"
    then text "- Unexpected field `" ++ (loc_text i.loc ++ text "` (this schema forbids extras)")
    else if contains (text "type") i.issue_type
    then text "- Field `"
      ++ (loc_text i.loc ++ (text "`: " ++ (i.msg ++ (text "; got " ++ got_text i.input))))
    else text "- `" ++ (loc_text i.loc ++ (text "`: " ++ i.msg))

-- `_format_validation_error`, with `str(err)` for an error without issues.
unfoldable pub format_validation_error : Text → List Issue → Text
format_validation_error shown [] = shown
format_validation_error shown (i ∷ is) =
    decimal (length (i ∷ is))
    ++ (text " validation issue(s):\n" ++ join (newline ∷ []) (map issue_line (i ∷ is)))

-- What pydantic raises.
pub record Invalid : Type 0 where
  pub shown : Text
  pub issues : List Issue

pub data Role : Type 0 where
  system user : Role

pub record Message : Type 0 where
  pub role : Role
  pub content : Text
  pub cache_breakpoint : Bool

-- The libraries that read JSON, strictly and as a prefix (or the position and the reason of a
-- failure), and check it against the agent's schema.
pub record Reader (Json Out : Type 0) : Type 0 where
  pub loads : Text → Option Json
  pub raw_decode : Text → (ℕ × Text) ⊎ Json
  pub validate : Json → Invalid ⊎ Out
  pub schema_name : Text
  pub dump : Out → Value

module _ {Json Out : Type 0} (reader : Reader Json Out) where
  abbrev decoded : (ℕ × Text) ⊎ Json → Text ⊎ Json
  decoded (inl (pos, msg)) =
      inl (text "not valid JSON (raw_decode failed at pos " ++ (decimal pos ++ (text "): " ++ msg)))
  decoded (inr obj) = inr obj

  -- `_parse_json_lenient`
  unfoldable pub parse_json_lenient : Text → Text ⊎ Json
  parse_json_lenient t = elim (reader.loads t) [
    | some obj ↦ inr obj
    | none ↦ decoded (reader.raw_decode t)
  ]

  abbrev validated : Invalid ⊎ Out → Text ⊎ Out
  validated (inl e) = inl (format_validation_error e.shown e.issues)
  validated (inr o) = inr o

  abbrev checked : Text ⊎ Json → Text ⊎ Out
  checked (inl e) = inl e
  checked (inr obj) = validated (reader.validate obj)

  -- `_parse_output`: the output, or the message of an AgentParseError.
  unfoldable pub parse_output : Text → Text ⊎ Out
  parse_output t = checked (parse_json_lenient (strip_json_fence t))

-- `_system_prompt_text`, with the menu of the skills if they are enabled.
abbrev pub system_prompt_text : Text → Option Text → Text
system_prompt_text base none = base
system_prompt_text base (some menu) = if truthy menu then base ++ (text "\n\n" ++ menu) else base

abbrev pub to_user : Text → Message
to_user content = record { role = user; content = content; cache_breakpoint = false }

abbrev pub opening_messages : Text → Text → List Message
opening_messages prompt content =
    record { role = system; content = prompt; cache_breakpoint = true } ∷ to_user content ∷ []

module _ {S A : Type 0} where
  -- `except AgentParseError`
  abbrev pub on_parse_error : (Text → Exec S A) → Error → Exec S A
  on_parse_error next (Error.agent_parse_error m) = next m
  on_parse_error next (Error.agent_error m) = raise (Error.agent_error m)
  on_parse_error next (Error.run_cancelled m) = raise (Error.run_cancelled m)
  on_parse_error next (Error.other c m) = raise (Error.other c m)

  -- The loop of the attempts that are left over a body, with what follows the last one.
  unfoldable pub tries :
      (List Message → Exec S A)
      → (Text → Message)
      → (Text → Exec S A)
      → ℕ
      → Text
      → List Message
      → Exec S A
  tries body again give_up zero last messages = give_up last
  tries body again give_up (suc k) last messages =
      try_except (body messages)
        (on_parse_error (λ e. tries body again give_up k e (messages ++ again e ∷ [])))

module _ {W Json Out : Type 0} (out : Outside W) (sleep : ℕ → W → W)
    (stream : List Message → Exec W Text) (failure_of : Error → Failure) (agent : AgentName)
    (agent_name : Text) (reader : Reader Json Out) (elapsed : W → ℕ) where
  -- `_stream_and_collect`
  abbrev pub stream_and_collect : List Message → Exec (StreamState W) Text
  stream_and_collect messages =
      stream_with_retry out sleep (stream messages) failure_of agent agent_name

  abbrev pub emit_as : EventKind → Payload → Exec (StreamState W) (Unit {0})
  emit_as kind payload s =
      let (r, (e', w')) = emit out kind payload (some agent) (s.emitter, s.world) in
      (
        drop_id out sleep (stream []) failure_of agent agent_name r,
        record s { world = w'; emitter = e' },
      )

  abbrev pub parsed : Text ⊎ Out → Exec (StreamState W) Out
  parsed (inl e) = raise (Error.agent_parse_error e)
  parsed (inr o) = pure o

  -- One reply, parsed.
  abbrev pub ask_once : List Message → Exec (StreamState W) Out
  ask_once messages = stream_and_collect messages >>= λ t. parsed (parse_output reader t)

  module _ (prompt user_content : Text) where
    abbrev stage_payload : Payload
    stage_payload = (text "stage", Value.str agent_name) ∷ []

    abbrev pub emit_output : Out → ℕ → Exec (StreamState W) (Unit {0})
    emit_output o ms = emit_as EventKind.agent_output (
        (text "schema_name", Value.str reader.schema_name)
        ∷ (text "output", reader.dump o)
        ∷ (text "duration_ms", Value.int ms)
        ∷ [])

    abbrev pub emit_done : ℕ → Exec (StreamState W) (Unit {0})
    emit_done ms =
        emit_as EventKind.stage_done
          ((text "stage", Value.str agent_name) ∷ (text "duration_ms", Value.int ms) ∷ [])

    abbrev pub emit_parsed_at : Out → ℕ → Exec (StreamState W) Out
    emit_parsed_at o ms = do emit_output o ms; emit_done ms; pure o

    -- The events of a reply that was parsed.
    abbrev pub emit_parsed : Out → Exec (StreamState W) Out
    emit_parsed o s = emit_parsed_at o (elapsed s.world) s

    abbrev pub again_run : Text → Message
    again_run e = to_user (
        text "Your previous response could not be parsed as JSON matching "
        ++ (reader.schema_name
            ++ (text ". Error: " ++ (e ++ text ". Return ONLY a valid JSON object this time."))))

    abbrev pub give_up_run : Text → Exec (StreamState W) Out
    give_up_run last = do
      emit_as EventKind.error (
          (text "message", Value.str (agent_name ++ (text " failed after 2 attempts: " ++ last)))
          ∷ (text "code", Value.str (text "parse_failed"))
          ∷ (text "stage", Value.str agent_name)
          ∷ [])
      raise (Error.agent_error (agent_name ++ text " produced unparseable output"))

    abbrev pub run_body : List Message → Exec (StreamState W) Out
    run_body messages = ask_once messages >>= emit_parsed

    -- The loop of `run`.
    abbrev pub run_tries : Exec (StreamState W) Out
    run_tries = tries run_body again_run give_up_run 2 [] (opening_messages prompt user_content)

    -- `run`
    unfoldable pub run : Exec (StreamState W) Out
    run = emit_as EventKind.stage_start stage_payload >> run_tries

  abbrev pub again_revision : Text → Message
  again_revision e = to_user (
      text "Your previous revision could not be parsed as JSON matching "
      ++ (reader.schema_name
          ++ (text ". Error: "
              ++ (e
                  ++ text
                      ". Return ONLY a valid JSON object this time, with all field names quoted correctly and no token-level corruption."))))

  abbrev pub give_up_revision : Text → Exec (StreamState W) Out
  give_up_revision last = raise (
      Error.agent_error
        (agent_name ++ text " revision produced unparseable output after 2 attempts"))

  -- What the agent is told, with the JSON of the context, of its output and of the critique.
  abbrev pub revision_content : Text → Text → Text → Text
  revision_content context original critique =
      text
        "Revise your previous JSON output using the Critic feedback below.\nReturn ONLY a valid JSON object matching "
      ++ (reader.schema_name
          ++ (text
                ". Preserve correct content; change only what is needed to satisfy the critique.\n\nContext JSON:\n"
              ++ (context
                  ++ (text "\n\nOriginal output JSON:\n"
                      ++ (original ++ (text "\n\nCritique JSON:\n" ++ critique))))))

  -- `revise_with_critique`
  unfoldable pub revise_with_critique : Text → Text → Text → Text → Exec (StreamState W) Out
  revise_with_critique prompt context original critique =
      tries ask_once again_revision give_up_revision 2 []
        (opening_messages prompt (revision_content context original critique))
