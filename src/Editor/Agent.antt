-- ===== src/Editor/Agent.antt =====
-- agents/paper_editor.py: `PaperEditorAgent`, the bounded loop of tool calls. Durations are left out
-- of the events.
mod Tests
pub mod Bounds
pub mod Terminal
use mathodology.Prelude.{
  ℕ, zero, suc, ◌+◌, Bool, true, false, Option, none, some, List, [], ◌∷◌, ◌++◌, ◌⊎◌, inl, inr, ltb,
  ◌==◌, if◌then◌else◌, length, take, map,
}
use mathodology.Text.{Text, text, truthy, strip, join, decimal, newline}
use mathodology.Text.Match.{after_prefix, is_some}
use mathodology.Exec.{Error, is_agent_error, Result, Exec, pure, raise, ◌>>=◌, ◌>>◌, try_except}
use mathodology.Float.{Float}
use mathodology.Fence.{fence, after_newline, before_fence}
use mathodology.Editor.Args.{Args, ℤ, concat}
use mathodology.Editor.Meta.{Section, Meta, Cell, Disk, ToolContext, ToolResult, or_else, or_empty}
use mathodology.Editor.Notebook.{Host}
use mathodology.Editor.Registry.{Tool, tool_name, execute}

-- `PaperEditorDirective`
pub record PaperEditorDirective : Type 0 where
  pub reasoning : Text
  pub tool : Tool
  pub args : Args
  pub done : Bool
  pub summary : Option Text

pub data Role : Type 0 where
  system user assistant : Role

pub record Message : Type 0 where
  pub role : Role
  pub content : Text

-- The events of the loop.
pub data Event : Type 0 where
  stage_start : Event
  tool_call : Tool → Args → Text → Event
  tool_result : Tool → ToolResult → Event
  parse_failed : Text → Event
  stage_done : Text → Event
  stage_failed : Event

-- What the agent is given: the emitter, the model's reply to a conversation, the directive that JSON
-- and its schema read from a text (or the message of the failure), its JSON, and the prompt.
pub record Service (W : Type 0) : Type 0 where
  pub send : Event → Exec W (Unit {0})
  pub complete : List Message → Exec W Text
  pub decode : Text → Text ⊎ PaperEditorDirective
  pub dump : PaperEditorDirective → Text
  pub prompt_text : Text
  pub render_user : Text → Text → Text → Text

-- A run: the context of the tools, the events with the newest first, and the replies asked for.
pub record Session (W : Type 0) : Type 0 where
  pub context : ToolContext W
  pub trace : List Event
  pub completions : ℕ

-- `_parse_directive`, up to the reading of the JSON.
abbrev pub unfenced_reply : Text → Text
unfenced_reply t =
    let s = strip t in
    if is_some (after_prefix fence s) then strip (before_fence (after_newline s)) else s

abbrev empty_meta : Meta
empty_meta = record { title = none; abstract = none; sections = []; references = []; run_id = none }

abbrev pub max_count : List Cell → ℕ
max_count [] = 0
max_count (Cell.plain ∷ cells) = max_count cells
max_count (Cell.code n source ∷ cells) =
    let rest = max_count cells in if ltb rest n then n else rest

abbrev pub loaded_cells : Option (List Cell) → List Cell
loaded_cells none = []
loaded_cells (some cells) = cells

abbrev loaded_meta : Option Meta → Meta
loaded_meta none = empty_meta
loaded_meta (some meta) = meta

-- `_load_context`
unfoldable pub load_context : {W : Type 0} → Disk W → W → ToolContext W
load_context disk world =
    let files = disk.read world in
    record {
      paper_meta = loaded_meta files.meta_json;
      cells = loaded_cells files.notebook;
      next_cell_index = max_count (loaded_cells files.notebook);
      world = world;
    }

abbrev flat : Text → Text
flat t = map (λ c. if c == newline then 32 else c) (take 120 t)

abbrev sized : Text → Text → Text
sized head t =
    concat (head ∷ text " (" ∷ decimal (length t) ∷ text " chars): " ∷ flat t ∷ text "..." ∷ [])

abbrev title_line : Option Text → List Text
title_line none = []
title_line (some t) = if truthy t then (text "title: " ++ t) ∷ [] else []

abbrev abstract_line : Text → List Text
abstract_line t = if truthy t then sized (text "abstract") t ∷ [] else []

abbrev outline_text : List Text → Text
outline_text [] = text "(no paper.meta.json found — paper not yet generated)"
outline_text (l ∷ ls) = join (newline ∷ []) (l ∷ ls)

-- `_render_outline`
pub render_outline : Meta → Text
render_outline meta = outline_text (
    title_line meta.title
    ++ (abstract_line (or_empty meta.abstract)
        ++ map (λ s. sized (text "- " ++ or_empty s.title) (or_empty s.body_markdown))
            meta.sections))

abbrev detail_text : Text → Text
detail_text t = if ltb 4000 (length t) then take 4000 t ++ text "\n... <truncated>" else t

abbrev part : Text → Option Text → List Text
part head none = []
part head (some t) = if truthy t then (head ++ t) ∷ [] else []

abbrev detail_of : Option Text → Option Text
detail_of none = none
detail_of (some t) = some (detail_text t)

-- `_render_tool_feedback`
pub render_tool_feedback : ToolResult → Text
render_tool_feedback r = join (newline ∷ []) (
    concat (
      text "Tool result ok="
      ∷ (if r.success then text "True" else text "False")
      ∷ text ": "
      ∷ r.summary
      ∷ [])
    ∷ (part (text "error: ") r.error
        ++ (part (text "detail:\n") (detail_of r.detail)
            ++ text "Continue with another tool, or set done=true with a summary." ∷ [])))

module _ {Num W : Type 0} ⦃fl : Float Num⦄ (service : Service W) (host : Host Num W)
    (repr : Text → Text) (parse : Text → Option ℤ) where
  abbrev moved : {A : Type 0} → Session W → Result A × W → Result A × Session W
  moved s (r, w) = (r, record s { context = record s.context { world = w } })

  abbrev pub emit_event : Event → Exec (Session W) (Unit {0})
  emit_event e s = moved (record s { trace = e ∷ s.trace }) (service.send e s.context.world)

  -- `_stream_and_collect`
  abbrev pub ask_model : List Message → Exec (Session W) Text
  ask_model messages s =
      moved (record s { completions = s.completions + 1 })
        (service.complete messages s.context.world)

  -- One tool call.
  abbrev worked : Session W → Result ToolResult × ToolContext W → Result ToolResult × Session W
  worked s (r, c) = (r, record s { context = c })

  abbrev pub run_tool : PaperEditorDirective → Exec (Session W) ToolResult
  run_tool d s = worked s (execute host repr parse d.tool d.args s.context)

  abbrev retry_message : Text → Message
  retry_message e = record {
    role = user;
    content = concat (
        text
          "Your previous response could not be parsed as a PaperEditorDirective JSON object. Error: "
        ∷ e
        ∷ text ". Return ONLY a JSON object with keys reasoning, tool, args, done, summary."
        ∷ []);
  }

  -- The loop of `_ask_llm`, with the attempts left and the last error.
  unfoldable pub ask_again : ℕ → Text → List Message → Exec (Session W) PaperEditorDirective
  ask_again zero last messages = do
    emit_event (parse_failed last)
    raise (Error.agent_error (text "paper_editor produced unparseable output"))
  ask_again (suc k) last messages = ask_model messages >>= λ t.
      elim (service.decode (unfenced_reply t)) [
        | inl e ↦ ask_again k e (messages ++ retry_message e ∷ [])
        | inr d ↦ pure d
      ]

  -- `_ask_llm`
  abbrev pub ask_llm : List Message → Exec (Session W) PaperEditorDirective
  ask_llm messages = ask_again 2 [] messages

  abbrev said : Role → Text → Message
  said role content = record { role = role; content = content }

  abbrev fed_back : List Message → PaperEditorDirective → ToolResult → List Message
  fed_back messages d r =
      messages ++ said assistant (service.dump d) ∷ said user (render_tool_feedback r) ∷ []

  abbrev final_summary : PaperEditorDirective → Text
  final_summary d = or_else (text "(no summary provided)") d.summary

  -- One turn up to its result.
  abbrev pub call_tool : PaperEditorDirective → Exec (Session W) ToolResult
  call_tool d = do
    emit_event (tool_call d.tool d.args d.reasoning)
    r ← run_tool d
    emit_event (tool_result d.tool r)
    pure r

  -- The loop of `fine_tune`, with the iterations left; the summary, if the model set `done`.
  unfoldable pub turns : ℕ → List Message → Exec (Session W) (Option Text)
  turns zero messages = pure none
  turns (suc n) messages = ask_llm messages >>= λ d. call_tool d >>= λ r. elim d.done [
    | true ↦ pure (some (final_summary d))
    | false ↦ turns n (fed_back messages d r)
  ]

  abbrev pub summary_of : ℕ → Option Text → Text
  summary_of max (some t) = t
  summary_of max none = concat (
      text "Reached iteration limit ("
      ∷ decimal max
      ∷ text ") without the model setting done=true."
      ∷ [])

  abbrev pub finish : ℕ → Option Text → Exec (Session W) Text
  finish max o = do emit_event (stage_done (summary_of max o)); pure (summary_of max o)

  -- `except AgentError`
  abbrev pub on_agent_error : Error → Exec (Session W) Text
  on_agent_error e = if is_agent_error e then (emit_event stage_failed >> raise e) else raise e

  -- `fine_tune` from its try on.
  unfoldable pub drive : ℕ → List Message → Exec (Session W) Text
  drive max messages = try_except (turns max messages >>= finish max) on_agent_error

  abbrev load : Exec (Session W) (Unit {0})
  load s = (Result.ok tt, record s { context = load_context host.disk s.context.world })

  abbrev first_messages : Text → Meta → List Message
  first_messages user_message meta =
      said system service.prompt_text
      ∷ said user (
          service.render_user user_message (render_outline meta)
            (text "(none — this is the first turn)"))
      ∷ []

  abbrev pub drive_loaded : ℕ → Text → Exec (Session W) Text
  drive_loaded max user_message s = drive max (first_messages user_message s.context.paper_meta) s

  -- `fine_tune`, on the files of the run's directory.
  unfoldable pub fine_tune : ℕ → Text → Exec (Session W) Text
  fine_tune max user_message = do emit_event stage_start; load; drive_loaded max user_message
