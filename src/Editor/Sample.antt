-- ===== src/Editor/Sample.antt =====
-- A small paper with its notebook, a kernel and arguments, for the tests of the editor's tools.
use mathodology.Prelude.{ℕ, ◌+◌, sym, ap, true, Option, none, some, List, [], ◌∷◌, ◌++◌}
use mathodology.Text.{Text, text}
use mathodology.Exec.{Error, Result}
use mathodology.Float.{cents}
use mathodology.Editor.Args.{Args, Value, ℤ}
use mathodology.Editor.Meta.{Section, Meta, Source, Cell, Files, Disk, ToolContext, render_paper_md}
use mathodology.Editor.Saving.{Writes}
use mathodology.Editor.Notebook.{Host}

abbrev pub shown : Text → Text
shown t = 39 ∷ t ++ 39 ∷ []

abbrev pub unread : Text → Option ℤ
unread t = none

abbrev pub summary_section : Section
summary_section = record {
  title = some (text "Summary");
  body_markdown = some (text "cost is 12, cost is high");
}

abbrev pub model_section : Section
model_section = record { title = some (text "Model"); body_markdown = some (text "we take x = 3") }

abbrev pub sample_meta : Meta
sample_meta = record {
  title = some (text "On x");
  abstract = some (text "a cost model");
  sections = summary_section ∷ model_section ∷ [];
  references = text "A book" ∷ [];
  run_id = none;
}

abbrev pub sample_cells : List Cell
sample_cells =
    Cell.plain
    ∷ Cell.code 1 (Source.whole (text "rate = 5\nprint(rate)"))
    ∷ Cell.code 2 (Source.lines (text "y = rate\n" ∷ text "y" ∷ []))
    ∷ []

abbrev pub sample_files : Files
sample_files = record {
  meta_json = some sample_meta;
  paper_md = some (render_paper_md sample_meta);
  notebook = some sample_cells;
  pdf = none;
}

-- The directory, and how many cells the kernel ran.
abbrev pub Place : Type 0
Place = Files × ℕ

abbrev pub sample_disk : Disk Place
sample_disk = record {
  read = λ w. w.0;
  write_meta = λ m w. (Result.ok tt, (record w.0 { meta_json = some m }, w.1));
  write_paper = λ t w. (Result.ok tt, (record w.0 { paper_md = some t }, w.1));
  write_notebook = λ cells w. (Result.ok tt, (record w.0 { notebook = some cells }, w.1));
  write_pdf = λ bytes w. (Result.ok tt, (record w.0 { pdf = some bytes }, w.1));
}

-- A disk on which paper.md cannot be written.
abbrev pub full_disk : Disk Place
full_disk = record sample_disk {
  write_paper =
      λ t w. (Result.err (Error.other (text "OSError") (text "No space left on device")), w);
}

pub sample_disk-Writes : Writes sample_disk
sample_disk-Writes = record {
  meta_written = λ m w w' h. ap (λ p. p.1.0.meta_json) (sym h);
  paper_written = λ t w w' h. (ap (λ p. p.1.0.paper_md) (sym h), ap (λ p. p.1.0.meta_json) (sym h));
}

abbrev pub sample_context : ToolContext Place
sample_context = record {
  paper_meta = sample_meta;
  cells = sample_cells;
  next_cell_index = 2;
  world = (sample_files, 0);
}

-- A kernel whose cells never fail; the world counts the cells that ran.
abbrev pub sample_host : Host ℕ Place
sample_host = record {
  disk = sample_disk;
  has_kernel = true;
  has_gateway = true;
  execute_cell = λ code i w. (Result.ok (record { stdout = []; error = none }), (w.0, w.1 + 1));
  export_paper = λ v w. (Result.ok (text "%PDF-1.5"), w);
  stat = λ path w. some (true, w.1);
  run_dir_name = text "run";
}

abbrev pub edit_args : Text → Text → Args
edit_args old new = (text "old_text", Value.string old) ∷ (text "new_text", Value.string new) ∷ []

abbrev pub section_args : Args
section_args =
    (text "section_title", Value.string (text "Model"))
    ∷ (text "new_body_md", Value.string (text "we take x = 9"))
    ∷ []
