-- ===== src/Editor/Meta.antt =====
-- editor_tools/tools.py: paper.meta.json in memory, the context of the tools, and the writing of the two
-- files of `_write_paper_artifacts`. The directory is outside: a write may fail, and the kernel's code
-- may change what is there.
use mathodology.Prelude.{
  ℕ, ◌+◌, Bool, false, Option, none, some, List, [], ◌∷◌, ◌++◌, if◌then◌else◌, map,
}
use mathodology.Exec.{Result, Exec, pure, ◌>>=◌, ◌>>◌}
use mathodology.Text.{Text, text, ◌=ₜ◌, truthy, join, newline, decimal}

-- A section; a key that is absent is `none`, and a value that is there is a string, as
-- `_build_paper_meta` writes it.
pub record Section : Type 0 where
  pub title : Option Text
  pub body_markdown : Option Text

-- The keys of paper.meta.json that the tools read; they keep the others as they are.
pub record Meta : Type 0 where
  pub title : Option Text
  pub abstract : Option Text
  pub sections : List Section
  pub references : List Text
  pub run_id : Option Text

-- A cell of notebook.ipynb. `plain` is a cell without code; the source of a code cell is a string, or
-- a list of strings.
pub data Source : Type 0 where
  whole : Text → Source
  lines : List Text → Source

pub data Cell : Type 0 where
  plain : Cell
  code : ℕ → Source → Cell

-- The files of the run's directory that the tools write: paper.meta.json and notebook.ipynb by what
-- their JSON encodes; `none` is a file that is not there or cannot be read.
pub record Files : Type 0 where
  pub meta_json : Option Meta
  pub paper_md : Option Text
  pub notebook : Option (List Cell)
  pub pdf : Option (List ℕ)

-- The run's directory: what is in it, and `Path.write_text` or `write_bytes` of each file, which may
-- raise an `OSError`.
pub record Disk (W : Type 0) : Type 0 where
  pub read : W → Files
  pub write_meta : Meta → Exec W (Unit {0})
  pub write_paper : Text → Exec W (Unit {0})
  pub write_notebook : List Cell → Exec W (Unit {0})
  pub write_pdf : List ℕ → Exec W (Unit {0})

-- `ToolContext`; `world` is the state of what is outside: the directory, the kernel, the gateway.
pub record ToolContext (W : Type 0) : Type 0 where
  pub paper_meta : Meta
  pub cells : List Cell
  pub next_cell_index : ℕ
  pub world : W

-- `ToolResult`
pub record ToolResult : Type 0 where
  pub success : Bool
  pub summary : Text
  pub detail : Option Text
  pub error : Option Text

-- `ToolResult(ok=False, summary=..., error=...)`
abbrev pub refuse : Text → Text → ToolResult
refuse summary error = record {
  success = false;
  summary = summary;
  detail = none;
  error = some error;
}

-- `o or default`, for an optional string.
abbrev pub or_else : Text → Option Text → Text
or_else default none = default
or_else default (some t) = if truthy t then t else default

-- `o.get(key, "")`
abbrev pub or_empty : Option Text → Text
or_empty none = []
or_empty (some t) = t

-- The parts of the document that the sections add.
abbrev pub meta_section_parts : List Section → List Text
meta_section_parts [] = []
meta_section_parts (s ∷ rest) =
    [] ∷ (text "## " ++ or_empty s.title) ∷ [] ∷ or_empty s.body_markdown ∷ meta_section_parts rest

-- The numbered references, from number `i` on.
abbrev pub numbered_references : ℕ → List Text → List Text
numbered_references i [] = []
numbered_references i (ref ∷ refs) =
    (decimal i ++ text ". " ++ ref) ∷ numbered_references (i + 1) refs

abbrev pub meta_reference_parts : List Text → List Text
meta_reference_parts [] = []
meta_reference_parts (ref ∷ refs) =
    [] ∷ text "## References" ∷ [] ∷ numbered_references 1 (ref ∷ refs)

-- `_render_paper_md`
unfoldable pub render_paper_md : Meta → Text
render_paper_md meta =
    join (newline ∷ []) (
      (text "# " ++ or_else (text "Paper") meta.title)
      ∷ []
      ∷ text "## Abstract"
      ∷ []
      ∷ or_else [] meta.abstract
      ∷ (meta_section_parts meta.sections ++ meta_reference_parts meta.references))
    ++ newline ∷ []

-- A call that goes outside.
abbrev pub outside : {W A : Type 0} → Result A × W → ToolContext W → Result A × ToolContext W
outside (r, w) ctx = (r, record ctx { world = w })

abbrev pub call : {W A : Type 0} → Exec W A → Exec (ToolContext W) A
call m ctx = outside (m ctx.world) ctx

-- `_write_paper_artifacts`
unfoldable pub write_paper_artifacts : {W : Type 0} → Disk W → Exec (ToolContext W) (Unit {0})
write_paper_artifacts disk ctx =
    (call (disk.write_meta ctx.paper_meta)
        >> call (disk.write_paper (render_paper_md ctx.paper_meta)))
      ctx

-- The new metadata in memory, then in the files, and the answer.
abbrev pub saved : {W : Type 0} → Disk W → ToolResult → Meta → Exec (ToolContext W) ToolResult
saved disk r meta ctx =
    (write_paper_artifacts disk >>= λ _. pure r) (record ctx { paper_meta = meta })

abbrev pub titled : Text → Option Text → Bool
titled title none = false
titled title (some t) = t =ₜ title

-- `_find_section`: the first section of that title.
unfoldable pub find_section : List Section → Text → Option Section
find_section [] title = none
find_section (s ∷ rest) title =
    let later = find_section rest title in if titled title s.title then some s else later

-- `_section_titles`
abbrev pub section_titles : Meta → List Text
section_titles meta = map (λ s. or_empty s.title) meta.sections
