-- ===== src/Editor/Surgical.antt =====
-- editor_tools/tools.py: `SurgicalEditTool`.
mod Tests
pub mod Exact
pub mod Refinement
pub mod Plan
use mathodology.Prelude.{
  ℕ, ◌+◌, ◌&&◌, Bool, true, false, not, Option, none, some, List, [], ◌∷◌, ◌++◌, leb, ltb, ◌==◌,
  if◌then◌else◌, map, keep, length, take,
}
use mathodology.Text.{Text, text, ◌=ₜ◌, truthy, join, newline, decimal}
use mathodology.Exec.{Result, Exec}
use mathodology.Text.Replace.{find, replace, splice}
use mathodology.Editor.Args.{
  Args, Value, arg, as_string, non_empty, truth_of, repr_value, repr_list, concat,
}
use mathodology.Editor.Meta.{Meta, Disk, ToolContext, ToolResult, refuse, saved}
use mathodology.Editor.Targets.{
  Target, Hit, editable_targets, in_scope, hits_of, total, put, diff_window,
}

-- The summary and the error of an early return.
pub record Refusal : Type 0 where
  pub summary : Text
  pub error : Text

abbrev no : Text → Text → Refusal
no summary error = record { summary = summary; error = error }

-- A check returns early, or goes on.
pub data Checked (A : Type 0) : Type 0 where
  refused : Refusal → Checked A
  passed : A → Checked A

infixl 5 ◌>>=◌ ◌>>◌
abbrev pub ◌>>=◌ : {A B : Type 0} → Checked A → (A → Checked B) → Checked B
refused r >>= f = refused r
passed a >>= f = f a

abbrev ◌>>◌ : {A B : Type 0} → Checked A → Checked B → Checked B
m >> k = m >>= λ _. k

abbrev require : Option Text → Refusal → Checked Text
require none r = refused r
require (some t) r = passed t

abbrev forbid : Bool → Refusal → Checked (Unit {0})
forbid true r = refused r
forbid false r = passed tt

-- The edit that the checks let through: the anchor, what replaces it and where.
pub record Edit : Type 0 where
  pub old_text : Text
  pub new_text : Text
  pub replace_all : Bool
  pub hits : List Hit

-- `label×count`, with commas between.
abbrev located : List (Text × ℕ) → Text
located counts = join (text ", ") (map (λ c. c.0 ++ 215 ∷ decimal c.1) counts)

module _ (repr : Text → Text) where
  abbrev not_unique : List Hit → Refusal
  not_unique hits =
      let locations = located (map (λ h. (h.target.label, h.count)) hits) in
      no
        (concat (
          text "surgical_edit: old_text appears "
          ∷ decimal (total hits)
          ∷ text " times ("
          ∷ locations
          ∷ text
              "). Widen the anchor with more surrounding context, narrow with `section_title`, or pass `replace_all=true`."
          ∷ []))
        (concat (
          text "non-unique match ("
          ∷ decimal (total hits)
          ∷ text " occurrences): "
          ∷ locations
          ∷ []))

  abbrev described : Option Text → Text
  described none = text "any abstract/section body"
  described (some title) = text "section " ++ repr title

  abbrev no_match : Text → Option Text → Refusal
  no_match old title =
      let preview = if leb (length old) 80 then old else take 80 old ++ text "..." in
      no
        (concat (
          text "surgical_edit: no match for old_text in "
          ∷ described title
          ∷ text ". Retry with a different anchor."
          ∷ []))
        (concat (
          text "old_text not found in "
          ∷ described title
          ∷ text ". Searched anchor (first 80 chars): "
          ∷ repr preview
          ∷ []))

  abbrev known_scope : List Target → Text → List Target → Checked (Option Text × List Target)
  known_scope every title [] = refused (
      no (concat (text "surgical_edit: unknown section_title " ∷ repr title ∷ text "." ∷ [])) (
        concat (
          text "Unknown section_title "
          ∷ repr title
          ∷ text ". Known: "
          ∷ repr_list repr (map (λ t. t.label) every)
          ∷ [])))
  known_scope every title (t ∷ ts) = passed (some title, t ∷ ts)

  abbrev bad_scope : Checked (Option Text × List Target)
  bad_scope = refused (
      no (text "surgical_edit `section_title` must be a non-empty string.")
        (text "bad section_title"))

  abbrev titled_scope : List Target → Option Text → Checked (Option Text × List Target)
  titled_scope every none = bad_scope
  titled_scope every (some title) =
      known_scope every title (keep (λ t. in_scope title t.label) every)

  -- The targets, and the section title that narrows them.
  abbrev pub scope : List Target → Value → Checked (Option Text × List Target)
  scope every Value.null = passed (none, every)
  scope every (Value.string title) = titled_scope every (non_empty (some title))
  scope every (Value.truth b) = bad_scope
  scope every (Value.integer i) = bad_scope
  scope every (Value.opaque b r i) = bad_scope

  -- The checks of `SurgicalEditTool.execute`, in their order, each with those after it: the number of
  -- occurrences,
  abbrev pub with_hits : Edit → Option Text → Checked Edit
  with_hits e title = do
    forbid (total e.hits == 0) (no_match e.old_text title)
    forbid (ltb 1 (total e.hits) && not e.replace_all) (not_unique e.hits)
    passed e

  abbrev pub with_targets : Args → Text → Text → Option Text × List Target → Checked Edit
  with_targets args old new (title, targets) =
      with_hits
        (record {
          old_text = old;
          new_text = new;
          replace_all = truth_of (arg (text "replace_all") args);
          hits = hits_of old targets;
        })
        title

  -- the anchor against what replaces it, and the scope,
  abbrev pub with_texts : Args → Meta → Text → Text → Checked Edit
  with_texts args meta old new = do
    forbid (old =ₜ new) (
        no (text "surgical_edit refused: old_text == new_text (noop).")
          (text "old_text equals new_text"))
    scope (editable_targets meta) (arg (text "section_title") args) >>= with_targets args old new

  -- the replacement,
  abbrev pub with_old : Args → Meta → Text → Checked Edit
  with_old args meta old =
      require (as_string (arg (text "new_text") args)) (
        no (text "surgical_edit requires `new_text` as a string.")
          (text "missing or non-string new_text"))
      >>= with_texts args meta old

  -- and the anchor.
  unfoldable pub plan : Args → Meta → Checked Edit
  plan args meta =
      require (non_empty (as_string (arg (text "old_text") args)))
        (no (text "surgical_edit requires a non-empty `old_text`.") (text "missing old_text"))
      >>= with_old args meta

-- The new body of a hit: every occurrence replaced, or the first one cut out.
unfoldable pub new_body : Edit → Text → Text
new_body e body =
    if e.replace_all
    then replace e.old_text e.new_text body
    else splice (find e.old_text body) e.old_text e.new_text body

-- The loop over the hits.
unfoldable pub apply_hits : Edit → List Hit → Meta → Meta
apply_hits e [] meta = meta
apply_hits e (h ∷ hs) meta =
    apply_hits e hs (put h.target.container (new_body e h.target.body) meta)

abbrev replaced_count : Edit → Hit → ℕ
replaced_count e h = if e.replace_all then h.count else 1

abbrev sum_counts : List (Text × ℕ) → ℕ
sum_counts [] = 0
sum_counts (c ∷ cs) = c.1 + sum_counts cs

abbrev diff_lines : Edit → List Hit → List Text
diff_lines e [] = []
diff_lines e (h ∷ hs) =
    concat (text "@ " ∷ h.target.label ∷ text ":" ∷ [])
    ∷ diff_window h.target.body (find e.old_text h.target.body) e.old_text e.new_text
    ∷ diff_lines e hs

abbrev sizes : Edit → Text → Text → Text
sizes e between after =
    concat (decimal (length e.old_text) ∷ between ∷ decimal (length e.new_text) ∷ after ∷ [])

abbrev first_label : List Hit → Text
first_label [] = []
first_label (h ∷ hs) = h.target.label

abbrev all_summary : Edit → ToolResult
all_summary e =
    let counts = map (λ h. (h.target.label, replaced_count e h)) e.hits in
    record {
      success = true;
      summary = concat (
          text "surgical_edit: replaced "
          ∷ decimal (sum_counts counts)
          ∷ text " occurrence(s) across "
          ∷ located counts
          ∷ text "."
          ∷ []);
      detail = some (
          concat (
            text "old_text ("
            ∷ sizes e (text " chars) -> new_text (") (text " chars); replace_all=true.")
            ∷ []));
      error = none;
    }

abbrev one_summary : Edit → ToolResult
one_summary e = record {
  success = true;
  summary = concat (
      text "surgical_edit: replaced 1 occurrence in "
      ∷ first_label e.hits
      ∷ text " ("
      ∷ sizes e (text " -> ") (text " chars).")
      ∷ []);
  detail = some (join (newline ∷ []) (diff_lines e e.hits));
  error = none;
}

abbrev pub edit_result : Edit → ToolResult
edit_result e = if e.replace_all then all_summary e else one_summary e

module _ {W : Type 0} where
  abbrev pub perform : Disk W → Checked Edit → Exec (ToolContext W) ToolResult
  perform disk (refused r) ctx = (Result.ok (refuse r.summary r.error), ctx)
  perform disk (passed e) ctx = saved disk (edit_result e) (apply_hits e e.hits ctx.paper_meta) ctx

  -- `SurgicalEditTool.execute`
  unfoldable pub surgical_edit : (Text → Text) → Disk W → Args → Exec (ToolContext W) ToolResult
  surgical_edit repr disk args ctx = perform disk (plan repr args ctx.paper_meta) ctx
