-- ===== src/Coder.antt =====
-- agents/coder.py: `CoderAgent.run`, the loop that writes and executes cells. The prompt files, the
-- schema and the JSON of what is shown to the model are parameters; durations are left out of the
-- events.
pub mod Loop
pub mod Work
pub mod Steps
pub mod Listed
pub mod Outcome
pub mod Tests
use mathodology.Prelude.{
  ℕ, zero, suc, ◌+◌, ◌*◌, Bool, true, false, not, ◌&&◌, ◌||◌, Option, none, some, List, [], ◌∷◌,
  ◌++◌, ◌⊎◌, inl, inr, ◌==◌, if◌then◌else◌, length, map, any,
}
use mathodology.Text.{Text, text, ◌=ₜ◌, truthy, join, decimal, newline}
use mathodology.Exec.{Error, Result, ok, err, Exec, pure, raise, ◌>>=◌, ◌>>◌}
use mathodology.Float.{Float}
use mathodology.Contracts.Artifacts.{CellExecution, Figure, CoderOutput}
use mathodology.Text.Replace.{replace}

-- `FigureMeta`
pub record FigureMeta (Num : Type 0) : Type 0 where
  pub id : Text
  pub caption : Text
  pub width : Num

pub data Language : Type 0 where
  python matlab : Language

-- `CoderDirective`
pub record CoderDirective (Num : Type 0) : Type 0 where
  pub reasoning : Text
  pub code : Text
  pub done : Bool
  pub summary : Option Text
  pub figures_saved : List (FigureMeta Num)
  pub language : Language
  pub skill_request : Option Text

pub data Role : Type 0 where
  system user assistant : Role

pub record Message : Type 0 where
  pub role : Role
  pub content : Text

-- The events of the agent.
pub data Event (Num : Type 0) : Type 0 where
  stage_start : Event Num
  log : Text → Text → Event Num
  parse_failed : Text → Event Num
  agent_output : CoderOutput Num → Event Num
  stage_done : Event Num

-- What the agent is given: the emitter, the streaming call, the parsing of a reply (or the message of
-- its AgentParseError), the JSON of a directive, the kernel, MATLAB if it is there, the skill tool if
-- it is enabled (success and content), and the run's directory, where `pngs` lists the stems of
-- figures/*.png in their order.
pub record Tools (Num W : Type 0) : Type 0 where
  pub send : Event Num → Exec W (Unit {0})
  pub complete : List Message → Exec W Text
  pub parse_directive : Text → Text ⊎ CoderDirective Num
  pub dump : CoderDirective Num → Text
  pub repr : Text → Text
  pub kernel_start : Exec W (Unit {0})
  pub kernel_execute : Text → ℕ → Exec W CellExecution
  pub kernel_shutdown : Exec W (Unit {0})
  pub write_notebook : List CellExecution → Exec W Text
  pub matlab_execute : Option (Text → ℕ → Exec W CellExecution)
  pub get_skill : Option (Text → Bool × Text)
  pub is_file : Text → W → Bool
  pub pngs : W → List Text

-- The locals of `run`: the ids that were seen are those of the figures.
pub record CoderState (Num W : Type 0) : Type 0 where
  pub world : W
  pub cells : List CellExecution
  pub figures : List (Figure Num)

abbrev pub max_iterations : ℕ
max_iterations = 7

abbrev pub skill_lookup_budget : ℕ
skill_lookup_budget = 6

-- `t in ts`
abbrev pub member : Text → List Text → Bool
member t ts = any (λ u. u =ₜ t) ts

abbrev pub ids : {Num : Type 0} → List (Figure Num) → List Text
ids figures = map (λ f. f.id) figures

abbrev pub png_of : Text → Text
png_of id = text "figures/" ++ (id ++ text ".png")

abbrev pub svg_of : Text → Text
svg_of id = text "figures/" ++ (id ++ text ".svg")

-- The back-compatible paths: those that the cells display, and each figure's that is not among them.
abbrev pub add_paths : {Num : Type 0} → List Text → List (Figure Num) → List Text
add_paths paths [] = paths
add_paths paths (f ∷ figures) =
    add_paths (if member f.path_png paths then paths else paths ++ f.path_png ∷ []) figures

abbrev pub displayed : List CellExecution → List Text
displayed [] = []
displayed (c ∷ cells) = c.figure_paths ++ displayed cells

abbrev pub all_figures : {Num : Type 0} → List CellExecution → List (Figure Num) → List Text
all_figures cells figures = add_paths (displayed cells) figures

abbrev shown_or : (Text → Text) → Text → Text → Text → Text
shown_or repr head none_text t = if truthy t then head ++ repr t else none_text

abbrev result_part : (Text → Text) → Option Text → Text
result_part repr none = text "result: (none)"
result_part repr (some t) = text "result: " ++ repr t

abbrev error_part : Option Text → Text
error_part none = text "error: (none)"
error_part (some e) = if truthy e then text "error: " ++ e else text "error: (none)"

-- `_render_feedback`
unfoldable pub render_feedback : (Text → Text) → CellExecution → Text
render_feedback repr cell = join (newline ∷ []) (
    (text "Cell "
      ++ (decimal cell.index ++ (text " executed in " ++ (decimal cell.duration_ms ++ text "ms."))))
    ∷ shown_or repr (text "stdout: ") (text "stdout: (empty)") cell.stdout
    ∷ shown_or repr (text "stderr: ") (text "stderr: (empty)") cell.stderr
    ∷ result_part repr cell.result_text
    ∷ error_part cell.error
    ∷ (text "figures saved: [" ++ (join (text ", ") (map repr cell.figure_paths) ++ text "]"))
    ∷ text "Continue with another cell, or set done=true and provide a summary."
    ∷ [])

module _ {Num W : Type 0} ⦃fl : Float Num⦄ (tools : Tools Num W) where
  abbrev pub moved : {A : Type 0} → CoderState Num W → Result A × W → Result A × CoderState Num W
  moved s (r, w) = (r, record s { world = w })

  -- A call that goes outside.
  abbrev pub reach_out : {A : Type 0} → Exec W A → Exec (CoderState Num W) A
  reach_out m s = moved s (m s.world)

  abbrev pub send_event : Event Num → Exec (CoderState Num W) (Unit {0})
  send_event e = reach_out (tools.send e)

  abbrev pub retry_message : Text → Message
  retry_message e = record {
    role = user;
    content =
        text "Your previous response could not be parsed as a CoderDirective JSON object. Error: "
        ++ (e
            ++ text
                ". Return ONLY a JSON object with keys reasoning, code, done, summary, figures_saved.");
  }

  -- The loop of `_ask_llm`, with the attempts left and the last error.
  unfoldable pub ask_coder : ℕ → Text → List Message → Exec (CoderState Num W) (CoderDirective Num)
  ask_coder zero last messages = do
    send_event (parse_failed last)
    raise (Error.agent_error (text "coder produced unparseable output"))
  ask_coder (suc k) last messages = reach_out (tools.complete messages) >>= λ t.
      elim (tools.parse_directive t) [
        | inl e ↦ ask_coder k e (messages ++ retry_message e ∷ [])
        | inr d ↦ pure d
      ]

  abbrev pub said : Role → Text → Message
  said role content = record { role = role; content = content }

  -- The skill that a directive asks for, if the tool is enabled.
  abbrev pub asks_skill : Option (Text → Bool × Text) → Option Text → Option (Text × Bool × Text)
  asks_skill none request = none
  asks_skill (some get) none = none
  asks_skill (some get) (some name) =
      if truthy name then some (name, (get name).0, (get name).1) else none

  abbrev pub skill_log : Text → Bool → Text → Event Num
  skill_log name success content = log (if success then text "info" else text "warn") (
      text "skill_tool: get_skill("
      ++ (tools.repr name
          ++ (text ") -> "
              ++ ((if success then text "ok" else text "error")
                  ++ (text " (" ++ (decimal (length content) ++ text " chars)"))))))

  abbrev pub skill_answer : Text → Text → Text
  skill_answer name content =
      text "get_skill("
      ++ (tools.repr name
          ++ (text ") result:\n\n"
              ++ (content
                  ++ text
                      "\n\nNow produce your next CoderDirective. Set `skill_request` to null and return executable code, OR request another skill if needed.")))

  -- The inner loop, with the lookups left: the directive to execute, and the conversation.
  unfoldable pub look_up :
      ℕ
      → CoderDirective Num
      → List Message
      → Exec (CoderState Num W) (CoderDirective Num × List Message)
  look_up zero d messages = pure (d, messages)
  look_up (suc k) d messages = elim (asks_skill tools.get_skill d.skill_request) [
    | none ↦ pure (d, messages)
    | some (name, success, content) ↦
        send_event (skill_log name success content)
        >> (ask_coder 2 [] (
              messages
              ++ said assistant (tools.dump d) ∷ said user (skill_answer name content) ∷ [])
            >>= λ d'. look_up k d' (
                messages
                ++ said assistant (tools.dump d) ∷ said user (skill_answer name content) ∷ []))
  ]
