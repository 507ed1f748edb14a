-- ===== src/Editor/Sections.antt =====
-- editor_tools/tools.py: `ReadPaperTool` and `EditSectionTool`.
pub mod RoundTrip
use mathodology.Prelude.{
  ℕ, Bool, true, false, ◌||◌, Option, none, some, List, [], ◌∷◌, ◌++◌, if◌then◌else◌, length, take,
  map,
}
use mathodology.Text.{Text, text, ◌=ₜ◌, truthy, join, newline, decimal}
use mathodology.Exec.{Result, Exec, pure}
use mathodology.Editor.Args.{
  Args, Value, arg, as_string, non_empty, repr_value, repr_list, concat, json_string,
}
use mathodology.Editor.Meta.{
  Section, Meta, Disk, ToolContext, ToolResult, refuse, or_else, or_empty, saved, titled,
  find_section, section_titles,
}

-- `title in ("Abstract", "abstract")`
abbrev pub is_abstract : Text → Bool
is_abstract title = (title =ₜ text "Abstract") || (title =ₜ text "abstract")

-- An entry of the outline: a title and the beginning of a body.
abbrev outline_entry : Text × Text → Text
outline_entry (title, snippet) = concat (
    text "  {\n    \"title\": "
    ∷ json_string title
    ∷ text ",\n    \"body_snippet\": "
    ∷ json_string snippet
    ∷ text "\n  }"
    ∷ [])

-- `json.dumps(outline, ensure_ascii=False, indent=2)`, for an outline that is not empty.
abbrev pub dumps_outline : List (Text × Text) → Text
dumps_outline entries = text "[\n" ++ (join (text ",\n") (map outline_entry entries) ++ text "\n]")

abbrev pub outline : Meta → List (Text × Text)
outline meta =
    (text "<title>", or_empty meta.title)
    ∷ (text "Abstract", take 200 (or_empty meta.abstract))
    ∷ map (λ s. (or_empty s.title, take 200 (or_empty s.body_markdown))) meta.sections

-- `sec["body_markdown"] = body`, for the section that `_find_section` finds.
unfoldable pub with_body : Text → Text → List Section → List Section
with_body title body [] = []
with_body title body (s ∷ rest) =
    let later = with_body title body rest in
    if titled title s.title then record s { body_markdown = some body } ∷ rest else s ∷ later

-- `ToolResult(ok=True, summary=...)`
abbrev pub replaced : Text → ToolResult
replaced summary = record { success = true; summary = summary; detail = none; error = none }

module _ (repr : Text → Text) where
  abbrev pub unknown_section : Meta → Value → ToolResult
  unknown_section meta title =
      refuse (concat (text "Unknown section_title " ∷ repr_value repr title ∷ text "." ∷ [])) (
        concat (
          text "No section with title "
          ∷ repr_value repr title
          ∷ text ". Known titles: "
          ∷ repr_list repr (section_titles meta)
          ∷ []))

  abbrev read_outline : Meta → ToolResult
  read_outline meta = record {
    success = true;
    summary =
        concat
          (text "Paper has " ∷ decimal (length meta.sections) ∷ text " sections + abstract." ∷ []);
    detail = some (dumps_outline (outline meta));
    error = none;
  }

  abbrev found_body : Meta → Text → Option Section → ToolResult
  found_body meta title none = unknown_section meta (Value.string title)
  found_body meta title (some s) = record {
    success = true;
    summary = concat (
        text "Section "
        ∷ repr title
        ∷ text " body returned ("
        ∷ decimal (length (or_empty s.body_markdown))
        ∷ text " chars)."
        ∷ []);
    detail = some (or_empty s.body_markdown);
    error = none;
  }

  abbrev abstract_body : Meta → ToolResult
  abstract_body meta = record {
    success = true;
    summary = text "Abstract body returned.";
    detail = some (or_empty meta.abstract);
    error = none;
  }

  abbrev pub read_section : Meta → Text → ToolResult
  read_section meta title =
      if is_abstract title
      then abstract_body meta
      else found_body meta title (find_section meta.sections title)

  abbrev read_titled : Meta → Value → ToolResult
  read_titled meta Value.null = read_outline meta
  read_titled meta (Value.string title) = read_section meta title
  read_titled meta (Value.truth b) = unknown_section meta (Value.truth b)
  read_titled meta (Value.integer i) = unknown_section meta (Value.integer i)
  read_titled meta (Value.opaque b r i) = unknown_section meta (Value.opaque b r i)

  -- `ReadPaperTool.execute`
  unfoldable pub read_paper : {W : Type 0} → Args → ToolContext W → ToolResult × ToolContext W
  read_paper args ctx = (read_titled ctx.paper_meta (arg (text "section_title") args), ctx)

  abbrev pub edited :
      {W : Type 0} → Disk W → Text → Text → Option Section → Exec (ToolContext W) ToolResult
  edited disk title body none ctx =
      (Result.ok (unknown_section ctx.paper_meta (Value.string title)), ctx)
  edited disk title body (some s) ctx =
      saved disk
        (replaced (
          concat (
            text "Replaced section "
            ∷ repr title
            ∷ text " body ("
            ∷ decimal (length body)
            ∷ text " chars)."
            ∷ [])))
        (record ctx.paper_meta { sections = with_body title body ctx.paper_meta.sections }) ctx

  abbrev pub edit_titled : {W : Type 0} → Disk W → Text → Text → Exec (ToolContext W) ToolResult
  edit_titled disk title body ctx =
      if is_abstract title
      then saved disk
          (replaced
            (concat (text "Replaced abstract (" ∷ decimal (length body) ∷ text " chars)." ∷ [])))
          (record ctx.paper_meta { abstract = some body }) ctx
      else edited disk title body (find_section ctx.paper_meta.sections title) ctx

  abbrev pub edit_checked :
      {W : Type 0} → Disk W → Option Text → Option Text → Exec (ToolContext W) ToolResult
  edit_checked disk none body = pure (
      refuse (text "edit_section requires non-empty section_title.") (text "missing section_title"))
  edit_checked disk (some title) none = pure (
      refuse (text "edit_section requires new_body_md as a string.")
        (text "missing or non-string new_body_md"))
  edit_checked disk (some title) (some body) = edit_titled disk title body

  -- `EditSectionTool.execute`
  unfoldable pub edit_section : {W : Type 0} → Disk W → Args → Exec (ToolContext W) ToolResult
  edit_section disk args =
      edit_checked disk (non_empty (as_string (arg (text "section_title") args)))
        (as_string (arg (text "new_body_md") args))
