-- ===== src/Editor/Reach/Tools.antt =====
-- editor_tools/tools.py: every tool changes its context by steps.
use mathodology.Prelude.{
  ℕ, ◌≡◌, refl, Bool, true, false, Option, none, some, List, [], ◌∷◌, ◌⊎◌, inl, inr, Bool-cases,
  length, if◌then◌else◌,
}
use mathodology.Text.{Text, text}
use mathodology.Text.Match.{after_prefix, is_some}
use mathodology.Exec.{Exec}
use mathodology.Float.{Float}
use mathodology.Editor.Args.{Args, Value, ℤ, arg, has, as_string, non_empty, repr_value}
use mathodology.Editor.Meta.{
  Section, Meta, Cell, Disk, ToolContext, ToolResult, find_section, saved, call,
  write_paper_artifacts, render_paper_md,
}
use mathodology.Editor.Sections.{
  is_abstract, edited, edit_titled, edit_checked, edit_section, read_paper,
}
use mathodology.Editor.Surgical.{Checked, refused, passed, perform, plan, surgical_edit}
use mathodology.Editor.Notebook.{
  Host, Ran, append_code_cell, with_cell, run_code, run_checked, run_cell, stat_now, figure_ran,
  draw, draw_checked, regenerate_figure, store_pdf, exported, fetch, rebuild, recompile_pdf,
  mtime_before, png_of,
}
use mathodology.Editor.Constant.{
  Rerun, patch_cells, rerun_cell, rerun_cells, rerun_from, patch_found, edit_named, edit_constant,
  cell_at, range, none_yet,
}
use mathodology.Editor.Registry.{Tool, execute}
use mathodology.Editor.Reach.{
  Step, Steps, stay, go, Reaches, pure-Reaches, raise-Reaches, call-Reaches, bind-Reaches,
  try_except-Reaches,
}

if-Reaches :
    {W A : Type 0} (b : Bool) (m k : Exec (ToolContext W) A)
    → Reaches m
    → Reaches k
    → Reaches (if b then m else k)
if-Reaches true m k h g = h
if-Reaches false m k h g = g

module _ {W : Type 0} (disk : Disk W) (repr : Text → Text) where
  write-Reaches : Reaches (write_paper_artifacts disk)
  unfolding write_paper_artifacts
  write-Reaches = record {
    reached = λ c.
        (bind-Reaches (call (disk.write_meta c.paper_meta))
            (λ _. call (disk.write_paper (render_paper_md c.paper_meta)))
            (call-Reaches (disk.write_meta c.paper_meta))
            (λ _. call-Reaches (disk.write_paper (render_paper_md c.paper_meta)))).reached
          c;
  }

  saved-Steps : (r : ToolResult) (m : Meta) (c : ToolContext W) → Steps c (saved disk r m c).1
  saved-Steps r m c =
      go c _ _ (Step.wrote c m) (
        (bind-Reaches _ _ write-Reaches (λ _. pure-Reaches r)).reached
          (record c { paper_meta = m }))

  edited-Steps :
      (title body : Text) (c : ToolContext W) (o : Option Section)
      → Steps c (edited repr disk title body o c).1
  edited-Steps title body c none = stay c
  edited-Steps title body c (some s) = saved-Steps _ _ c

  edit_titled-Steps :
      (title body : Text) (c : ToolContext W) → Steps c (edit_titled repr disk title body c).1
  edit_titled-Steps title body c = elim (Bool-cases (is_abstract title)) [
    | inl e ↦ rw e (saved-Steps _ _ c)
    | inr e ↦ rw e (edited-Steps title body c (find_section c.paper_meta.sections title))
  ]

  edit_checked-Steps :
      (o b : Option Text) (c : ToolContext W) → Steps c (edit_checked repr disk o b c).1
  edit_checked-Steps none b c = stay c
  edit_checked-Steps (some t) none c = stay c
  edit_checked-Steps (some t) (some b) c = edit_titled-Steps t b c

  perform-Steps : (c : ToolContext W) (p : Checked _) → Steps c (perform disk p c).1
  perform-Steps c (refused r) = stay c
  perform-Steps c (passed e) = saved-Steps _ _ c

module _ {Num W : Type 0} (host : Host Num W) where
  append-Reaches : (source : Text) → Reaches (append_code_cell host.disk source)
  unfolding append_code_cell
  append-Reaches source = record {
    reached = λ c. go c _ _ (Step.appended c source) (
        (bind-Reaches _ _ (call-Reaches (host.disk.write_notebook (with_cell source c).cells))
            (λ _. pure-Reaches c.next_cell_index)).reached
          (with_cell source c));
  }

  run_code-Reaches : (code : Text) → Reaches (run_code host code)
  run_code-Reaches code = bind-Reaches _ _ (append-Reaches code) (λ idx.
      bind-Reaches _ _ (call-Reaches (host.execute_cell code (ℤ.pos idx))) (λ ran. pure-Reaches _))

  run_checked-Reaches : (o : Option Text) → Reaches (run_checked host o)
  run_checked-Reaches none = pure-Reaches _
  run_checked-Reaches (some code) =
      if-Reaches host.has_kernel _ _ (run_code-Reaches code) (pure-Reaches _)

  module _ ⦃fl : Float Num⦄ where
    figure_ran-Reaches :
        (png : Text) (idx : ℕ) (before : Num) (ran : Ran) (o : Option Text)
        → Reaches (figure_ran host png idx before ran o)
    figure_ran-Reaches png idx before ran none = record { reached = stay }
    figure_ran-Reaches png idx before ran (some err) = pure-Reaches _

    draw-Reaches : (png code : Text) → Reaches (draw host png code)
    draw-Reaches png code =
        bind-Reaches (stat_now host png) _ (record { reached = stay })
          (λ stat. bind-Reaches _ _ (append-Reaches code) (λ idx.
            bind-Reaches _ _ (call-Reaches (host.execute_cell code (ℤ.pos idx))) (λ ran.
              figure_ran-Reaches png idx (mtime_before host stat) ran (non_empty ran.error))))

    draw_checked-Reaches : (o c : Option Text) → Reaches (draw_checked host o c)
    draw_checked-Reaches none c = pure-Reaches _
    draw_checked-Reaches (some id) none = pure-Reaches _
    draw_checked-Reaches (some id) (some code) =
        if-Reaches host.has_kernel _ _ (draw-Reaches (png_of host id) code) (pure-Reaches _)

  store_pdf-Reaches : (bytes : List ℕ) → Reaches (store_pdf host bytes)
  store_pdf-Reaches bytes =
      if-Reaches (is_some (after_prefix (text "%PDF") bytes)) _ _
        (bind-Reaches _ _ (call-Reaches (host.disk.write_pdf bytes)) (λ _. pure-Reaches _))
        (pure-Reaches _)

  exported-Reaches : (r : ToolResult ⊎ List ℕ) → Reaches (exported host r)
  exported-Reaches (inl r) = pure-Reaches r
  exported-Reaches (inr bytes) = store_pdf-Reaches bytes

  fetch-Reaches : (v : Value) → Reaches (fetch host v)
  fetch-Reaches v = bind-Reaches _ _ (call-Reaches (host.export_paper v)) (λ bytes. pure-Reaches _)

  rebuild-Reaches : (args : Args) → Reaches (rebuild host args)
  rebuild-Reaches args = record {
    reached = λ c.
        (bind-Reaches _ _ (try_except-Reaches _ _ (fetch-Reaches _) (λ e. pure-Reaches _))
            exported-Reaches).reached
          c;
  }

  module _ (repr : Text → Text) (parse : Text → Option ℤ) where
    rerun_cell-Reaches :
        (i : ℤ) (o : Option Cell) (r : Rerun) → Reaches (rerun_cell host repr parse i o r)
    rerun_cell-Reaches i none r = raise-Reaches _
    rerun_cell-Reaches i (some Cell.plain) r = pure-Reaches r
    rerun_cell-Reaches i (some (Cell.code count source)) r =
        bind-Reaches _ _ (call-Reaches _) (λ ran. pure-Reaches _)

    rerun_cells-Reaches :
        (cells : List Cell) (is : List ℤ) (r : Rerun)
        → Reaches (rerun_cells host repr parse cells is r)
    unfolding rerun_cells
    rerun_cells-Reaches cells [] r = pure-Reaches r
    rerun_cells-Reaches cells (i ∷ is) r =
        bind-Reaches _ _ (rerun_cell-Reaches i (cell_at i cells) r) (rerun_cells-Reaches cells is)

    rerun_from-Reaches :
        (name value : Text) (idx : ℕ) (line : Text) (cells : List Cell) (o : Option ℤ) (v : Value)
        → Reaches (rerun_from host repr parse name value idx line cells o v)
    rerun_from-Reaches name value idx line cells none v = pure-Reaches _
    rerun_from-Reaches name value idx line cells (some first) v =
        bind-Reaches _ _
          (if-Reaches host.has_kernel _ _
            (rerun_cells-Reaches cells (range first (length cells)) none_yet) (pure-Reaches _))
          (λ r. pure-Reaches _)

    patch_found-Steps :
        (args : Args) (name value : Text) (c : ToolContext W) (o : Option (ℕ × Text × List Cell))
        → patch_cells name value c.cells ≡ o
        → Steps c (patch_found host repr parse args name value o c).1
    patch_found-Steps args name value c none h = stay c
    patch_found-Steps args name value c (some (idx, line, cells)) h =
        go c _ _ (Step.patched c name value line idx cells h) (
          (bind-Reaches _ _ (call-Reaches (host.disk.write_notebook cells))
              (λ _. rerun_from-Reaches name value idx line cells _ _)).reached
            (record c { cells = cells }))

    edit_named-Steps :
        (args : Args) (o : Option Text) (c : ToolContext W)
        → Steps c (edit_named host repr parse args o c).1
    edit_named-Steps args none c = stay c
    edit_named-Steps args (some name) c = elim (Bool-cases (has (text "value") args)) [
      | inl e ↦
          rw e (patch_found-Steps args name (repr_value repr (arg (text "value") args)) c _ refl)
      | inr e ↦ rw e (stay c)
    ]

    -- Whatever tool is run, and whatever it returns or raises, its context changes by steps only.
    pub execute-Reaches :
        ⦃fl : Float Num⦄ (tool : Tool) (args : Args) → Reaches (execute host repr parse tool args)
    unfolding execute read_paper edit_section surgical_edit edit_constant run_cell regenerate_figure
        recompile_pdf
    execute-Reaches Tool.read_paper_tool args = record { reached = stay }
    execute-Reaches Tool.edit_section_tool args = record {
      reached =
          edit_checked-Steps host.disk repr
            (non_empty (as_string (arg (text "section_title") args)))
            (as_string (arg (text "new_body_md") args));
    }
    execute-Reaches Tool.surgical_edit_tool args = record {
      reached = λ c. perform-Steps host.disk repr c (plan repr args c.paper_meta);
    }
    execute-Reaches Tool.edit_constant_tool args = record { reached = edit_named-Steps args _ }
    execute-Reaches Tool.run_cell_tool args = run_checked-Reaches _
    execute-Reaches Tool.regenerate_figure_tool args = draw_checked-Reaches _ _
    execute-Reaches Tool.recompile_pdf_tool args =
        if-Reaches host.has_gateway _ _ (rebuild-Reaches args) (pure-Reaches _)
