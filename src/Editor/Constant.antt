-- ===== src/Editor/Constant.antt =====
-- editor_tools/tools.py: `EditConstantTool`. A line of a cell's source has a line feed only at its end.
use mathodology.Prelude.{
  ℕ, zero, suc, ◌+◌, ◌-◌, ◌&&◌, ◌||◌, Bool, true, false, not, Option, none, some, List, [], ◌∷◌,
  ◌++◌, leb, ltb, ◌==◌, if◌then◌else◌, length,
}
use mathodology.Text.{Text, text, ◌=ₜ◌, truthy, is_space, lstrip, join, decimal, newline}
use mathodology.Text.Match.{span, after_prefix}
use mathodology.Exec.{Error, Exec, pure, raise, ◌>>=◌, ◌>>◌}
use mathodology.Editor.Args.{
  Args, Value, ℤ, arg, has, as_string, non_empty, repr_value, int_text, concat,
}
use mathodology.Editor.Meta.{Disk, call, Source, Cell, ToolContext, ToolResult, refuse}
use mathodology.Editor.Notebook.{Host, is_line_break}

-- One more character in front of the first line.
abbrev onto_line : ℕ → List Text → List Text
onto_line c [] = (c ∷ []) ∷ []
onto_line c (l ∷ ls) = (c ∷ l) ∷ ls

-- A character that ends a line; a carriage return with a line feed behind it is one break.
abbrev ends_line : ℕ → Text → Bool
ends_line c [] = is_line_break c
ends_line c (d ∷ t) = is_line_break c && not (c == 13 && d == 10)

-- `t.splitlines(keepends=True)`
abbrev pub split_lines : Text → List Text
split_lines [] = []
split_lines (c ∷ t) =
    let rest = split_lines t in if ends_line c t then (c ∷ []) ∷ rest else onto_line c rest

abbrev pub lines_of : Source → List Text
lines_of (Source.whole t) = split_lines t
lines_of (Source.lines ls) = ls

-- `"".join(lines)`
abbrev pub source_text : Source → Text
source_text (Source.whole t) = t
source_text (Source.lines ls) = concat ls

-- `line.rstrip("\n")` and whether there was a line feed.
abbrev chomp : Text → Text × Bool
chomp [] = ([], false)
chomp (c ∷ []) = if c == newline then ([], true) else (c ∷ [], false)
chomp (c ∷ d ∷ t) = let (rest, ended) = chomp (d ∷ t) in (c ∷ rest, ended)

-- `[A-Za-z_0-9]`
abbrev is_word : ℕ → Bool
is_word c = (leb 97 c && leb c 122) || (leb 65 c && leb c 90) || (leb 48 c && leb c 57) || c == 95

abbrev starts_name : Text → Bool
starts_name [] = false
starts_name (c ∷ t) = not (leb 48 c && leb c 57)

-- `\s*=\s*(.+?)\s*$`
abbrev has_value : Text → Bool
has_value t = elim (after_prefix (text "=") (lstrip t)) [ none ↦ false | some rest ↦ truthy rest ]

-- The match of `_ASSIGN_RE` in a line: the indentation and the name.
unfoldable pub assigned : Text → Option (Text × Text)
assigned line =
    let (indent, rest) = span is_space line in
    let (name, after) = span is_word rest in
    if starts_name name && has_value after then some (indent, name) else none

abbrev new_line : Text → Text → Text → Bool → Text
new_line indent name value ended =
    concat (indent ∷ name ∷ text " = " ∷ value ∷ (if ended then newline ∷ [] else []) ∷ [])

abbrev patched_first :
    Option Text → Text → Option (Text × List Text) → List Text → Option (Text × List Text)
patched_first (some new) line later rest = some (new, new ∷ rest)
patched_first none line (some (new, lines)) rest = some (new, line ∷ lines)
patched_first none line none rest = none

abbrev pub found_later : Cell → Option (ℕ × Text × List Cell) → Option (ℕ × Text × List Cell)
found_later c none = none
found_later c (some (i, line, cells)) = some (suc i, line, c ∷ cells)

abbrev pub found_here :
    Cell
    → ℕ
    → Option (Text × List Text)
    → List Cell
    → Option (ℕ × Text × List Cell)
    → Option (ℕ × Text × List Cell)
found_here c count (some (line, lines)) rest later =
    some (zero, line, Cell.code count (Source.whole (concat lines)) ∷ rest)
found_here c count none rest later = found_later c later

module _ (name value : Text) where
  -- The line with its new right-hand side, if it assigns to the name.
  abbrev patched_line : Text → Option Text
  patched_line line =
      let (body, ended) = chomp line in
      elim (assigned body) [
        | none ↦ none
        | some (indent, found) ↦
            if found =ₜ name then some (new_line indent name value ended) else none
      ]

  -- The first line that assigns to the name, patched, and the lines with it.
  abbrev pub patch_lines : List Text → Option (Text × List Text)
  patch_lines [] = none
  patch_lines (line ∷ rest) = patched_first (patched_line line) line (patch_lines rest) rest

  -- The first code cell with such a line: its position, the new line and the cells with it patched.
  abbrev pub patch_cells : List Cell → Option (ℕ × Text × List Cell)
  patch_cells [] = none
  patch_cells (Cell.plain ∷ rest) = found_later Cell.plain (patch_cells rest)
  patch_cells (Cell.code count source ∷ rest) =
      found_here (Cell.code count source) count (patch_lines (lines_of source)) rest
        (patch_cells rest)

-- `range(i, n)`
abbrev from_to : ℕ → ℕ → List ℤ
from_to i zero = []
from_to i (suc k) = ℤ.pos i ∷ from_to (i + 1) k

abbrev from_negative : ℕ → ℕ → List ℤ
from_negative zero n = ℤ.negsuc zero ∷ from_to 0 n
from_negative (suc k) n = ℤ.negsuc (suc k) ∷ from_negative k n

abbrev pub range : ℤ → ℕ → List ℤ
range (ℤ.pos i) n = from_to i (n - i)
range (ℤ.negsuc k) n = from_negative k n

abbrev nth : ℕ → List Cell → Option Cell
nth i [] = none
nth zero (c ∷ cells) = some c
nth (suc i) (c ∷ cells) = nth i cells

-- `cells[i]`, from the end for a negative `i`.
abbrev pub cell_at : ℤ → List Cell → Option Cell
cell_at (ℤ.pos i) cells = nth i cells
cell_at (ℤ.negsuc k) cells =
    if ltb k (length cells) then nth (length cells - (k + 1)) cells else none

-- The cells run again, and the errors of those that failed.
pub record Rerun : Type 0 where
  pub rerun_count : ℕ
  pub rerun_errors : List Text

abbrev note : ℤ → Option Text → Rerun → Rerun
note i none r = record r { rerun_count = r.rerun_count + 1 }
note i (some err) r = record {
  rerun_count = r.rerun_count + 1;
  rerun_errors = r.rerun_errors ++ concat (text "cell " ∷ int_text i ∷ text ": " ∷ err ∷ []) ∷ [];
}

abbrev pub none_yet : Rerun
none_yet = record { rerun_count = 0; rerun_errors = [] }

-- The patched cells, in memory and on disk.
abbrev pub store_cells : {W : Type 0} → Disk W → List Cell → Exec (ToolContext W) (Unit {0})
store_cells disk cells ctx = call (disk.write_notebook cells) (record ctx { cells = cells })

module _ {Num W : Type 0} (host : Host Num W) (repr : Text → Text) (parse : Text → Option ℤ) where
  abbrev pub rerun_cell : ℤ → Option Cell → Rerun → Exec (ToolContext W) Rerun
  rerun_cell i none r = raise (Error.other (text "IndexError") (text "list index out of range"))
  rerun_cell i (some Cell.plain) r = pure r
  rerun_cell i (some (Cell.code count source)) r = do
    ran ← call (host.execute_cell (source_text source) i)
    pure (note i (non_empty ran.error) r)

  -- The loop over the cells to run again.
  unfoldable pub rerun_cells : List Cell → List ℤ → Rerun → Exec (ToolContext W) Rerun
  rerun_cells cells [] r = pure r
  rerun_cells cells (i ∷ is) r = rerun_cell i (cell_at i cells) r >>= rerun_cells cells is

  abbrev pub rerun_all : List Cell → ℤ → Exec (ToolContext W) Rerun
  rerun_all cells first =
      if host.has_kernel
      then rerun_cells cells (range first (length cells)) none_yet
      else pure none_yet

  abbrev errored : List Text → Bool
  errored [] = false
  errored (e ∷ es) = true

  -- Two sentences, and a third if a cell failed.
  abbrev constant_summary : Text → Text → ℕ → ℤ → Rerun → Text
  constant_summary name value idx first r = concat (
      text "Patched "
      ∷ name
      ∷ text " = "
      ∷ value
      ∷ text " in cell "
      ∷ decimal idx
      ∷ text ". Re-executed "
      ∷ decimal r.rerun_count
      ∷ text " cell(s) from index "
      ∷ int_text first
      ∷ text "."
      ∷ (if errored r.rerun_errors
          then concat
              (text " " ∷ decimal (length r.rerun_errors) ∷ text " cell(s) errored on rerun." ∷ [])
          else [])
      ∷ [])

  abbrev constant_result : Text → Text → ℕ → Text → ℤ → Rerun → ToolResult
  constant_result name value idx line first r = record {
    success = not (errored r.rerun_errors);
    summary = constant_summary name value idx first r;
    detail = some (
        concat (
          text "Edited line: "
          ∷ (chomp line).0
          ∷ (if errored r.rerun_errors then newline ∷ join (newline ∷ []) r.rerun_errors else [])
          ∷ []));
    error = if errored r.rerun_errors then some (join (text "; ") r.rerun_errors) else none;
  }

  abbrev pub rerun_from :
      Text → Text → ℕ → Text → List Cell → Option ℤ → Value → Exec (ToolContext W) ToolResult
  rerun_from name value idx line cells none given = pure (
      refuse (text "rerun_cells_from must be an integer.")
        (text "bad rerun_cells_from " ++ repr_value repr given))
  rerun_from name value idx line cells (some first) given = do
    r ← rerun_all cells first
    pure (constant_result name value idx line first r)

  -- `int(rerun_cells_from)`, or the position of the edited cell; `parse` is `int` of a string, and
  -- `none` is a TypeError or a ValueError.
  abbrev pub first_cell : ℕ → Value → Option ℤ
  first_cell idx Value.null = some (ℤ.pos idx)
  first_cell idx (Value.truth true) = some (ℤ.pos 1)
  first_cell idx (Value.truth false) = some (ℤ.pos 0)
  first_cell idx (Value.integer i) = some i
  first_cell idx (Value.string t) = parse t
  first_cell idx (Value.opaque b r i) = i

  abbrev pub patch_found :
      Args → Text → Text → Option (ℕ × Text × List Cell) → Exec (ToolContext W) ToolResult
  patch_found args name value none = pure (
      refuse (concat (text "No `" ∷ name ∷ text " = ...` assignment found in notebook." ∷ []))
        (concat (text "constant " ∷ repr name ∷ text " not found" ∷ [])))
  patch_found args name value (some (idx, line, cells)) = do
    store_cells host.disk cells
    rerun_from name value idx line cells (first_cell idx (arg (text "rerun_cells_from") args))
        (arg (text "rerun_cells_from") args)

  abbrev pub edit_named : Args → Option Text → Exec (ToolContext W) ToolResult
  edit_named args none ctx =
      pure (refuse (text "edit_constant requires a `name` identifier.") (text "missing name")) ctx
  edit_named args (some name) ctx =
      if has (text "value") args
      then patch_found args name (repr_value repr (arg (text "value") args))
          (patch_cells name (repr_value repr (arg (text "value") args)) ctx.cells) ctx
      else pure (refuse (text "edit_constant requires a `value`.") (text "missing value")) ctx

  -- `EditConstantTool.execute`
  unfoldable pub edit_constant : Args → Exec (ToolContext W) ToolResult
  edit_constant args = edit_named args (non_empty (as_string (arg (text "name") args)))
