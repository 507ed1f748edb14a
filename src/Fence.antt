-- ===== src/Fence.antt =====
-- agents/base.py `_strip_json_fence`: a reply without the code fence that a model puts around JSON.
pub mod RoundTrip
pub mod Tests
use mathodology.Prelude.{
  ℕ, ◌≡◌, refl, ap, ◌∙◌, Bool, true, false, Option, none, some, List, [], ◌∷◌, ◌++◌, ◌==◌,
  if◌then◌else◌, All,
}
use mathlib.Core.List.{append_assoc}
use mathodology.Text.{Text, text, ◌=ₜ◌, strip, newline}
use mathodology.Text.Match.{after_prefix, is_some}

abbrev pub fence : Text
fence = text "```"

-- `t.split("\n", 1)[1] if "\n" in t else ""`
abbrev pub after_newline : Text → Text
after_newline [] = []
after_newline (c ∷ t) = let rest = after_newline t in if c == newline then t else rest

abbrev put_back : ℕ → Option Text → Option Text
put_back c none = none
put_back c (some t) = some (c ∷ t)

-- The text without the suffix, if it ends with it.
abbrev pub before_suffix : Text → Text → Option Text
before_suffix suffix [] = if [] =ₜ suffix then some [] else none
before_suffix suffix (c ∷ t) =
    let rest = put_back c (before_suffix suffix t) in if (c ∷ t) =ₜ suffix then some [] else rest

-- `t.rsplit("```", 1)[0] if t.endswith("```") else t`
abbrev pub before_fence : Text → Text
before_fence t = elim (before_suffix fence t) [ none ↦ t | some rest ↦ rest ]

abbrev pub unfenced : Text → Text
unfenced t = if is_some (after_prefix fence t) then before_fence (after_newline t) else t

-- `_strip_json_fence`
unfoldable pub strip_json_fence : Text → Text
strip_json_fence t = strip (unfenced (strip t))
