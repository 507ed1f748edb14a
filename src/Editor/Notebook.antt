-- ===== src/Editor/Notebook.antt =====
-- editor_tools/tools.py: the tools that run code in the kernel and rebuild the PDF.
use mathodology.Prelude.{
  ℕ, ◌+◌, ◌&&◌, ◌||◌, Bool, true, false, not, Option, none, some, List, [], ◌∷◌, ◌++◌, ◌⊎◌, inl,
  inr, leb, ◌==◌, if◌then◌else◌, length, take,
}
use mathodology.Text.{Text, text, truthy, strip, decimal}
use mathodology.Text.Match.{span, after_prefix, is_some}
use mathodology.Exec.{Error, message, Result, Exec, pure, ◌>>=◌, try_except}
use mathodology.Float.{Float}
use mathodology.Editor.Args.{Args, Value, ℤ, arg, as_string, non_empty, concat}
use mathodology.Editor.Meta.{Source, Cell, Disk, ToolContext, ToolResult, refuse, call}

-- What a cell's run returns.
pub record Ran : Type 0 where
  pub stdout : Text
  pub error : Option Text

-- What the tools are given: the directory of the run, and the kernel and the gateway, if any. `stat`
-- tells of a path that exists whether it is a file and when it was modified.
pub record Host (Num W : Type 0) : Type 0 where
  pub disk : Disk W
  pub has_kernel : Bool
  pub has_gateway : Bool
  pub execute_cell : Text → ℤ → Exec W Ran
  pub export_paper : Value → Exec W (List ℕ)
  pub stat : Text → W → Option (Bool × Num)
  pub run_dir_name : Text

-- The notebook in memory, with a cell more.
abbrev pub with_cell : {W : Type 0} → Text → ToolContext W → ToolContext W
with_cell source ctx = record ctx {
  cells = ctx.cells ++ Cell.code (ctx.next_cell_index + 1) (Source.whole source) ∷ [];
  next_cell_index = ctx.next_cell_index + 1;
}

-- `_append_code_cell`
unfoldable pub append_code_cell : {W : Type 0} → Disk W → Text → Exec (ToolContext W) ℕ
append_code_cell disk source ctx =
    let ctx' = with_cell source ctx in
    (call (disk.write_notebook ctx'.cells) >>= λ _. pure ctx.next_cell_index) ctx'

-- A character at which `str.splitlines` ends a line.
abbrev pub is_line_break : ℕ → Bool
is_line_break c =
    (leb 10 c && leb c 13) || (leb 28 c && leb c 30) || c == 133 || c == 8232 || c == 8233

-- `t.splitlines()[0]`, for a text that is not empty.
abbrev first_line : Text → Text
first_line t = (span (λ c. not (is_line_break c)) t).0

abbrev pub code_of : Args → Option Text
code_of args = elim (as_string (arg (text "code") args)) [
  | none ↦ none
  | some code ↦ if truthy (strip code) then some code else none
]

module _ {Num W : Type 0} (host : Host Num W) where
  abbrev done : Text → Option Text → ToolResult
  done summary detail = record { success = true; summary = summary; detail = detail; error = none }

  abbrev failed : Text → Option Text → Text → ToolResult
  failed summary detail error = record {
    success = false;
    summary = summary;
    detail = detail;
    error = some error;
  }

  abbrev pub ran_cell : ℕ → Ran → Option Text → ToolResult
  ran_cell idx ran (some err) =
      failed (concat (text "Cell " ∷ decimal idx ∷ text " errored: " ∷ first_line err ∷ []))
        (some ran.stdout) err
  ran_cell idx ran none =
      done
        (concat (
          text "Cell "
          ∷ decimal idx
          ∷ text " executed cleanly ("
          ∷ decimal (length ran.stdout)
          ∷ text " stdout chars)."
          ∷ []))
        (if truthy ran.stdout then some (take 2000 ran.stdout) else none)

  abbrev pub run_code : Text → Exec (ToolContext W) ToolResult
  run_code code = do
    idx ← append_code_cell host.disk code
    ran ← call (host.execute_cell code (ℤ.pos idx))
    pure (ran_cell idx ran (non_empty ran.error))

  abbrev pub run_checked : Option Text → Exec (ToolContext W) ToolResult
  run_checked none = pure (refuse (text "run_cell requires non-empty code.") (text "missing code"))
  run_checked (some code) =
      if host.has_kernel
      then run_code code
      else pure
          (refuse (text "run_cell requires a live kernel.") (text "no kernel session attached"))

  -- `RunCellTool.execute`
  unfoldable pub run_cell : Args → Exec (ToolContext W) ToolResult
  run_cell args = run_checked (code_of args)

  abbrev pub stat_now : Text → Exec (ToolContext W) (Option (Bool × Num))
  stat_now path ctx = (Result.ok (host.stat path ctx.world), ctx)

  abbrev pub png_of : Text → Text
  png_of id = concat (text "figures/" ∷ id ∷ text ".png" ∷ [])

  module _ ⦃fl : Float Num⦄ where
    -- `mtime_before`: 0.0 for a path that does not exist.
    abbrev pub mtime_before : Option (Bool × Num) → Num
    mtime_before none = fl.hundredths 0
    mtime_before (some (is_file, mtime)) = mtime

    abbrev fresh_figure : Text → ℕ → Num → Num → ToolResult
    fresh_figure png idx before after =
        if fl.lt before after
        then done
            (concat (text "Regenerated " ∷ png ∷ text " (cell " ∷ decimal idx ∷ text ")." ∷ []))
            none
        else refuse
            (concat
              (png ∷ text " exists but mtime did not advance — figure was NOT regenerated." ∷ []))
            (concat (text "stale artifact " ∷ png ∷ []))

    abbrev missing_figure : Text → ToolResult
    missing_figure png =
        refuse (concat (text "Cell ran but " ∷ png ∷ text " does not exist." ∷ []))
          (concat (text "missing artifact " ∷ png ∷ []))

    abbrev landed : Text → ℕ → Num → Option (Bool × Num) → ToolResult
    landed png idx before none = missing_figure png
    landed png idx before (some (false, mtime)) = missing_figure png
    landed png idx before (some (true, mtime)) = fresh_figure png idx before mtime

    abbrev pub figure_ran : Text → ℕ → Num → Ran → Option Text → Exec (ToolContext W) ToolResult
    figure_ran png idx before ran none = do after ← stat_now png; pure (landed png idx before after)
    figure_ran png idx before ran (some err) = pure (
        failed
          (concat (
            text "Cell "
            ∷ decimal idx
            ∷ text " errored before figure landed: "
            ∷ first_line err
            ∷ []))
          (some ran.stdout) err)

    abbrev pub draw : Text → Text → Exec (ToolContext W) ToolResult
    draw png code = do
      stat ← stat_now png
      idx ← append_code_cell host.disk code
      ran ← call (host.execute_cell code (ℤ.pos idx))
      figure_ran png idx (mtime_before stat) ran (non_empty ran.error)

    abbrev pub draw_checked : Option Text → Option Text → Exec (ToolContext W) ToolResult
    draw_checked none code =
        pure (refuse (text "regenerate_figure requires figure_id.") (text "missing figure_id"))
    draw_checked (some id) none =
        pure (refuse (text "regenerate_figure requires non-empty code.") (text "missing code"))
    draw_checked (some id) (some code) =
        if host.has_kernel
        then draw (png_of id) code
        else pure (
            refuse (text "regenerate_figure requires a live kernel.")
              (text "no kernel session attached"))

    -- `RegenerateFigureTool.execute`
    unfoldable pub regenerate_figure : Args → Exec (ToolContext W) ToolResult
    regenerate_figure args =
        draw_checked (non_empty (as_string (arg (text "figure_id") args))) (code_of args)

  -- The run's id: from the metadata, the arguments or the name of the directory.
  abbrev pub run_id_of : Option Text → Value → Value
  run_id_of (some id) v = Value.string id
  run_id_of none (Value.string id) = Value.string id
  run_id_of none Value.null = Value.string host.run_dir_name
  run_id_of none (Value.truth b) = Value.truth b
  run_id_of none (Value.integer i) = Value.integer i
  run_id_of none (Value.opaque b r i) = Value.opaque b r i

  abbrev pub store_pdf : List ℕ → Exec (ToolContext W) ToolResult
  store_pdf bytes =
      if is_some (after_prefix (text "%PDF") bytes)
      then (call (host.disk.write_pdf bytes) >>= λ _. pure (
          done (concat (text "paper.pdf rebuilt (" ∷ decimal (length bytes) ∷ text " bytes)." ∷ []))
            none))
      else pure (
          refuse
            (concat (
              text "Gateway returned non-PDF payload ("
              ∷ decimal (length bytes)
              ∷ text " bytes)."
              ∷ []))
            (text "non-pdf payload"))

  abbrev pub export_refused : Error → Exec (ToolContext W) (ToolResult ⊎ List ℕ)
  export_refused e =
      pure (inl (refuse (text "Gateway export_paper failed: " ++ message e) (message e)))

  abbrev pub exported : ToolResult ⊎ List ℕ → Exec (ToolContext W) ToolResult
  exported (inl r) = pure r
  exported (inr bytes) = store_pdf bytes

  abbrev pub fetch : Value → Exec (ToolContext W) (ToolResult ⊎ List ℕ)
  fetch run_id = do bytes ← call (host.export_paper run_id); pure (inr bytes)

  abbrev pub rebuild : Args → Exec (ToolContext W) ToolResult
  rebuild args ctx =
      (try_except (fetch (run_id_of ctx.paper_meta.run_id (arg (text "run_id") args)))
            export_refused
          >>= exported)
        ctx

  -- `RecompilePdfTool.execute`
  unfoldable pub recompile_pdf : Args → Exec (ToolContext W) ToolResult
  recompile_pdf args =
      if host.has_gateway
      then rebuild args
      else pure
          (refuse (text "recompile_pdf requires a gateway client.") (text "no gateway attached"))
