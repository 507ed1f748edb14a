-- ===== src/Editor/Agent/Tests.antt =====
-- agents/paper_editor.py on concrete inputs.
use mathodology.Prelude.{◌+◌, ◌*◌, ◌≤◌, ◌≡◌, refl, true, some, [], inr}
use mathodology.Text.{text, strip, lstrip, rstrip}
use mathodology.Exec.{Result}
use mathodology.Float.{cents}
use mathodology.Editor.Meta.{find_section, write_paper_artifacts}
use mathodology.Editor.Sections.{edit_section}
use mathodology.Editor.Registry.{Tool, execute}
use mathodology.Editor.Agent.{
  PaperEditorDirective, Service, Session, load_context, ask_again, turns, drive,
}
use mathodology.Editor.Agent.Bounds.{calls, drive_bounded}
use mathodology.Editor.Agent.Terminal.{Ended, drive-Ended}
use mathodology.Editor.Sample.{
  Place, sample_disk, shown, unread, sample_files, sample_host, section_args,
}

-- A model that edits once and is done.
abbrev edit_once : PaperEditorDirective
edit_once = record {
  reasoning = [];
  tool = Tool.edit_section_tool;
  args = section_args;
  done = true;
  summary = some (text "edited");
}

abbrev sample_service : Service Place
sample_service = record {
  send = λ e w. (Result.ok tt, w);
  complete = λ ms w. (Result.ok (text "{}"), w);
  decode = λ t. inr edit_once;
  dump = λ d. [];
  prompt_text = [];
  render_user = λ m o r. m;
}

abbrev sample_session : Session Place
sample_session = record {
  context = load_context sample_disk (sample_files, 0);
  trace = [];
  completions = 0;
}

drive_bounded_example :
    (calls (drive sample_service sample_host shown unread 8 [] sample_session).1.trace ≤ 0 + 8)
    × ((drive sample_service sample_host shown unread 8 [] sample_session).1.completions
        ≤ 0 + 2 * 8)
drive_bounded_example = drive_bounded sample_service sample_host shown unread 8 [] sample_session

drive-Ended_example : Ended (drive sample_service sample_host shown unread 8 [] sample_session)
drive-Ended_example = drive-Ended sample_service sample_host shown unread 8 [] sample_session

-- The run of the example returns the model's summary.
edited_once :
    (drive sample_service sample_host shown unread 8 [] sample_session).0
    ≡ Result.ok (text "edited")
unfolding drive turns ask_again execute edit_section write_paper_artifacts find_section load_context
    strip lstrip rstrip
edited_once = refl
