-- ===== src/Editor/Surgical/Tests.antt =====
-- editor_tools/tools.py: `SurgicalEditTool` on concrete inputs.
use mathodology.Prelude.{◌≡◌, refl, []}
use mathodology.Text.{Text, text}
use mathodology.Text.Replace.{occurrences, count_from}
use mathodology.Float.{cents}
use mathodology.Editor.Args.{Value}
use mathodology.Exec.{Result, ok, err}
use mathodology.Editor.Saving.{Stored}
use mathodology.Editor.Meta.{ToolContext, ToolResult, refuse, write_paper_artifacts}
use mathodology.Editor.Targets.{editable_targets, hits_of}
use mathodology.Editor.Surgical.{plan, surgical_edit}
use mathodology.Editor.Surgical.Exact.{edited_paper}
use mathodology.Editor.Surgical.Plan.{inside}
use mathodology.Editor.Surgical.Refinement.{surgical_edit-edited_paper, surgical_edit-refused}
use mathodology.Editor.Sample.{
  Place, sample_disk, sample_disk-Writes, shown, sample_meta, sample_context, edit_args,
}

abbrev run_edit : Text → Text → Result ToolResult × ToolContext Place
run_edit old new = surgical_edit shown sample_disk (edit_args old new) sample_context

abbrev answer_of : Result ToolResult → ToolResult
answer_of (ok t) = t
answer_of (err e) = refuse [] []

-- The anchor occurs once, in the second section.
surgical_edit-edited_paper_example :
    let after = edited_paper (inside Value.null) (text "x = 3") (text "x = 4") sample_meta in
    ((run_edit (text "x = 3") (text "x = 4")).1 ≡ record sample_context {
      paper_meta = after;
      world = (run_edit (text "x = 3") (text "x = 4")).1.world;
    })
    × Stored sample_disk after (run_edit (text "x = 3") (text "x = 4")).1.world
unfolding surgical_edit plan editable_targets hits_of occurrences count_from write_paper_artifacts
surgical_edit-edited_paper_example =
    surgical_edit-edited_paper sample_disk sample_disk-Writes shown
      (edit_args (text "x = 3") (text "x = 4")) sample_context (text "x = 3") (text "x = 4")
      (answer_of (run_edit (text "x = 3") (text "x = 4")).0) refl refl refl refl

-- It occurs three times.
surgical_edit-refused_example : (run_edit (text "cost") (text "price")).1 ≡ sample_context
unfolding surgical_edit plan editable_targets hits_of occurrences count_from
surgical_edit-refused_example =
    surgical_edit-refused sample_disk shown (edit_args (text "cost") (text "price")) sample_context
      (answer_of (run_edit (text "cost") (text "price")).0) refl refl
