-- ===== src/Editor/Registry.antt =====
-- editor_tools/tools.py: `build_tool_registry`.
use mathodology.Prelude.{Option}
use mathodology.Text.{Text, text}
use mathodology.Exec.{Result, Exec}
use mathodology.Float.{Float}
use mathodology.Editor.Args.{Args, ℤ}
use mathodology.Editor.Meta.{ToolContext, ToolResult}
use mathodology.Editor.Sections.{read_paper, edit_section}
use mathodology.Editor.Surgical.{surgical_edit}
use mathodology.Editor.Notebook.{Host, run_cell, regenerate_figure, recompile_pdf}
use mathodology.Editor.Constant.{edit_constant}

-- `ToolName`
pub data Tool : Type 0 where
  read_paper_tool edit_section_tool surgical_edit_tool edit_constant_tool run_cell_tool : Tool
  regenerate_figure_tool recompile_pdf_tool : Tool

abbrev pub tool_name : Tool → Text
tool_name read_paper_tool = text "read_paper"
tool_name edit_section_tool = text "edit_section"
tool_name surgical_edit_tool = text "surgical_edit"
tool_name edit_constant_tool = text "edit_constant"
tool_name run_cell_tool = text "run_cell"
tool_name regenerate_figure_tool = text "regenerate_figure"
tool_name recompile_pdf_tool = text "recompile_pdf"

-- A tool that raises nothing.
abbrev pub quietly : {W : Type 0} → ToolResult × ToolContext W → Result ToolResult × ToolContext W
quietly (r, ctx) = (Result.ok r, ctx)

-- `registry[tool].execute(args, ctx)`
unfoldable pub execute :
    {Num W : Type 0} ⦃fl : Float Num⦄
    → Host Num W
    → (Text → Text)
    → (Text → Option ℤ)
    → Tool
    → Args
    → Exec (ToolContext W) ToolResult
execute host repr parse read_paper_tool args ctx = quietly (read_paper repr args ctx)
execute host repr parse edit_section_tool args ctx = edit_section repr host.disk args ctx
execute host repr parse surgical_edit_tool args ctx = surgical_edit repr host.disk args ctx
execute host repr parse edit_constant_tool args ctx = edit_constant host repr parse args ctx
execute host repr parse run_cell_tool args ctx = run_cell host args ctx
execute host repr parse regenerate_figure_tool args ctx = regenerate_figure host args ctx
execute host repr parse recompile_pdf_tool args ctx = recompile_pdf host args ctx
