-- ===== src/Contracts/Artifacts.antt =====
-- mm_contracts/agent_io.py: the problem, and the artifacts that the stages hand on. Pydantic's bounds
-- on lengths are not part of the types. `Num` is the type of floats.
use mathodology.Prelude.{ℕ, Bool, Option, List}
use mathodology.Text.{Text}

pub data AttachmentKind : Type 0 where
  csv xlsx pdf image text : AttachmentKind

pub data CompetitionType : Type 0 where
  mcm icm cumcm huashu other : CompetitionType

pub data ReasoningEffort : Type 0 where
  off low medium high : ReasoningEffort

pub data SearchPrimary : Type 0 where
  tavily open_websearch none : SearchPrimary

pub data SearchEngine : Type 0 where
  bing baidu duckduckgo csdn juejin brave exa startpage : SearchEngine

pub data TavilyDepth : Type 0 where
  basic advanced : TavilyDepth

pub record SearchConfig : Type 0 where
  pub primary : SearchPrimary
  pub engines : List SearchEngine
  pub tavily_depth : TavilyDepth
  pub fallback_threshold : ℕ

pub record Attachment : Type 0 where
  pub name : Text
  pub kind : AttachmentKind
  pub content_base64 : Option Text

pub record ProblemInput : Type 0 where
  pub problem_text : Text
  pub competition_type : CompetitionType
  pub attachments : List Attachment
  pub model_override : Option Text
  pub reasoning_effort : ReasoningEffort
  pub long_context : Bool
  pub search_config : Option SearchConfig

pub record DataRequirement : Type 0 where
  pub name : Text
  pub description : Text
  pub source_hint : Option Text

pub record ApproachSketch : Type 0 where
  pub name : Text
  pub rationale : Text
  pub methods : List Text

pub record AnalyzerOutput : Type 0 where
  pub restated_problem : Text
  pub sub_questions : List Text
  pub assumptions : List Text
  pub data_requirements : List DataRequirement
  pub proposed_approaches : List ApproachSketch

pub record Variable : Type 0 where
  pub symbol : Text
  pub name : Text
  pub unit : Option Text
  pub description : Text

pub record Equation : Type 0 where
  pub latex : Text
  pub description : Text

pub record ConsultedMethod : Type 0 where
  pub id : Text
  pub name : Text
  pub reason : Text

pub record ModelSpec : Type 0 where
  pub chosen_approach : Text
  pub rationale : Text
  pub variables : List Variable
  pub equations : List Equation
  pub algorithm_outline : List Text
  pub complexity_notes : Option Text
  pub validation_strategy : Text
  pub consulted_methods : List ConsultedMethod

pub record CellExecution : Type 0 where
  pub index : ℕ
  pub source : Text
  pub stdout : Text
  pub stderr : Text
  pub result_text : Option Text
  pub figure_paths : List Text
  pub error : Option Text
  pub duration_ms : ℕ
  pub language : Text

-- One saved figure, registered by the Coder.
pub record Figure (Num : Type 0) : Type 0 where
  pub id : Text
  pub caption : Text
  pub path_png : Text
  pub path_svg : Option Text
  pub width : Num

pub record CoderOutput (Num : Type 0) : Type 0 where
  pub cells : List CellExecution
  pub figures : List (Figure Num)
  pub figure_paths : List Text
  pub final_summary : Text
  pub notebook_path : Text

pub record PaperSection : Type 0 where
  pub title : Text
  pub body_markdown : Text

pub record PaperDraft : Type 0 where
  pub title : Text
  pub abstract : Text
  pub sections : List PaperSection
  pub references : List Text
  pub figure_refs : List Text
