-- ===== src/Editor/Targets.antt =====
-- editor_tools/tools.py: the bodies that `surgical_edit` may change, the occurrences of its anchor in
-- them, and what it shows of a change.
use mathodology.Prelude.{
  ℕ, zero, suc, ◌+◌, ◌-◌, ◌&&◌, ◌||◌, Bool, Option, none, some, List, [], ◌∷◌, ◌++◌, leb, ltb,
  if◌then◌else◌, map, length, take, drop,
}
use mathodology.Text.{Text, text, ◌=ₜ◌, newline}
use mathodology.Text.Replace.{occurrences, replace}
use mathodology.Editor.Args.{concat}
use mathodology.Editor.Meta.{Section, Meta, or_else, or_empty}

-- The dictionary that a target changes in place: the metadata, at `abstract`, or the section of that
-- position, at `body_markdown`.
pub data Container : Type 0 where
  paper : Container
  section : ℕ → Container

-- A target with its label and its body, `container.get(field) or ""`.
pub record Target : Type 0 where
  pub label : Text
  pub container : Container
  pub body : Text

abbrev pub section_targets : ℕ → List Section → List Target
section_targets i [] = []
section_targets i (s ∷ rest) =
    record {
      label = or_else (text "(untitled)") s.title;
      container = section i;
      body = or_empty s.body_markdown;
    }
    ∷ section_targets (suc i) rest

abbrev pub abstract_targets : Option Text → List Target
abstract_targets none = []
abstract_targets (some t) = record { label = text "Abstract"; container = paper; body = t } ∷ []

-- `_editable_targets`
unfoldable pub editable_targets : Meta → List Target
editable_targets meta = abstract_targets meta.abstract ++ section_targets 0 meta.sections

-- `str.lower` of a capital of ASCII, the only ones that can lower to a letter of "abstract".
abbrev lower_char : ℕ → ℕ
lower_char c = if leb 65 c && leb c 90 then c + 32 else c

-- The targets that `section_title` leaves.
unfoldable pub in_scope : Text → Text → Bool
in_scope title label =
    label =ₜ title || ((map lower_char title =ₜ text "abstract") && label =ₜ text "Abstract")

-- A target in which the anchor occurs, and how often.
pub record Hit : Type 0 where
  pub count : ℕ
  pub target : Target

unfoldable pub hits_of : Text → List Target → List Hit
hits_of old [] = []
hits_of old (t ∷ ts) =
    let rest = hits_of old ts in
    let n = occurrences old t.body in
    if ltb 0 n then record { count = n; target = t } ∷ rest else rest

abbrev pub total : List Hit → ℕ
total [] = 0
total (h ∷ hs) = h.count + total hs

-- `sections[i][field] = body`
unfoldable pub set_body : ℕ → Text → List Section → List Section
set_body i body [] = []
set_body zero body (s ∷ rest) = record s { body_markdown = some body } ∷ rest
set_body (suc i) body (s ∷ rest) = s ∷ set_body i body rest

-- `container[field] = body`
abbrev pub put : Container → Text → Meta → Meta
put paper body meta = record meta { abstract = some body }
put (section i) body meta = record meta { sections = set_body i body meta.sections }

-- `t.replace("\n", "\\n")`
abbrev one_line : Text → Text
one_line t = replace (newline ∷ []) (text "\\n") t

-- `_diff_window`
pub diff_window : Text → ℕ → Text → Text → Text
diff_window body idx old new = concat (
    text "  ..."
    ∷ one_line (take (idx - (idx - 60)) (drop (idx - 60) body))
    ∷ text "\n- "
    ∷ one_line old
    ∷ text "\n+ "
    ∷ one_line new
    ∷ text "\n  "
    ∷ one_line (take 60 (drop (idx + length old) body))
    ∷ text "..."
    ∷ [])
