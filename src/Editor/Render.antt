-- ===== src/Editor/Render.antt =====
-- editor_tools/tools.py `_render_paper_md` against pipeline.py `_render_paper_markdown`, which it
-- says it mirrors.
use mathodology.Prelude.{ℕ, Bool, none, some, List, keep, all, map}
use mathodology.Text.{Text, truthy, strip}
use mathodology.Contracts.Artifacts.{PaperSection}
use mathodology.Pipeline.Paper.{has_prefix, PaperMeta}
use mathodology.Editor.Meta.{Section, Meta}

abbrev stored_section : PaperSection → Section
stored_section s = record { title = some s.title; body_markdown = some s.body_markdown }

-- The metadata that the pipeline writes, as the tools read it.
unfoldable pub stored : {Num : Type 0} → PaperMeta Num → Meta
stored meta = record {
  title = some meta.title;
  abstract = some meta.abstract;
  sections = map stored_section meta.sections;
  references = meta.references;
  run_id = none;
}

-- Some reference that is not blank has no `[N]` in front.
abbrev unnumbered : (ℕ → Bool) → List Text → Bool
unnumbered is_digit refs = all (has_prefix is_digit) (keep (λ r. truthy (strip r)) refs)
