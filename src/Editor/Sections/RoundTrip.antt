-- ===== src/Editor/Sections/RoundTrip.antt =====
-- editor_tools/tools.py: what `ReadPaperTool` finds after `EditSectionTool`.
use mathodology.Prelude.{
  ◌≡◌, refl, sym, ap, subst, ◌∙◌, inl, inr, true, false, Option, none, some, List, [], ◌∷◌,
  Bool-cases, true-false, map,
}
use mathodology.Text.{Text, text}
use mathodology.Editor.Args.{Args, Value, arg, as_string, non_empty}
use mathodology.Editor.Meta.{
  Section, Meta, Disk, ToolContext, ToolResult, or_empty, titled, find_section, section_titles,
  saved,
}
use mathodology.Exec.{Result, ok}
use mathodology.Editor.Saving.{Writes, Stored, saved-Saved, ok_injective}
use mathodology.Editor.Sections.{
  is_abstract, read_section, read_paper, with_body, edited, edit_titled, edit_checked, edit_section,
}

-- The section that a search found, with its new body.
abbrev bodied : Text → Option Section → Option Section
bodied body none = none
bodied body (some s) = some (record s { body_markdown = some body })

find-with_body :
    (title body : Text) (secs : List Section)
    → find_section (with_body title body secs) title ≡ bodied body (find_section secs title)
unfolding find_section with_body
find-with_body title body [] = refl
find-with_body title body (x ∷ rest) = elim (Bool-cases (titled title x.title)) [
  | inl e ↦ rw (e, e) refl
  | inr e ↦ rw (e, e) (find-with_body title body rest)
]

titles-with_body :
    (title body : Text) (secs : List Section)
    → map (λ s. or_empty s.title) (with_body title body secs) ≡ map (λ s. or_empty s.title) secs
unfolding with_body
titles-with_body title body [] = refl
titles-with_body title body (x ∷ rest) = elim (Bool-cases (titled title x.title)) [
  | inl e ↦ rw e refl
  | inr e ↦ rw e (ap (λ r. or_empty x.title ∷ r) (titles-with_body title body rest))
]

-- What a run of the tool leaves.
record Edited {W : Type 0} (disk : Disk W) (repr : Text → Text) (title body : Text)
    (ctx : ToolContext W) (r : Result ToolResult × ToolContext W) : Type 0 where
  if_refused : (t : ToolResult) → r.0 ≡ ok t → t.success ≡ false → r.1 ≡ ctx
  if_done :
      (t : ToolResult)
      → r.0 ≡ ok t
      → t.success ≡ true
      → ((read_section repr r.1.paper_meta title).detail ≡ some body)
        × Stored disk r.1.paper_meta r.1.world
  same_titles : section_titles r.1.paper_meta ≡ section_titles ctx.paper_meta

succeeds : (r t : ToolResult) → r.success ≡ true → t ≡ r → t.success ≡ false → ⊥
succeeds r t good same no_success =
    true-false (sym good ∙ ap (λ x. x.success) (sym same) ∙ no_success)

module _ {W : Type 0} (disk : Disk W) (laws : Writes disk) (repr : Text → Text) (title body : Text)
    (ctx : ToolContext W) where
  -- A change that was saved.
  saved-Edited :
      (r : ToolResult) (m : Meta)
      → r.success ≡ true
      → (read_section repr m title).detail ≡ some body
      → section_titles m ≡ section_titles ctx.paper_meta
      → Edited disk repr title body ctx (saved disk r m ctx)
  saved-Edited r m good reads titles =
      let s = saved-Saved disk laws r m ctx in
      let now = ap (λ c. c.paper_meta) s.in_memory in
      record {
        if_refused = λ t e f. absurd (succeeds r t good (s.answered t e).0 f);
        if_done = λ t e _. (
          ap (λ x. (read_section repr x title).detail) now ∙ reads,
          subst (λ x. Stored disk x (saved disk r m ctx).1.world) (sym now) (s.answered t e).1,
        );
        same_titles = ap section_titles now ∙ titles;
      }

  edited-Edited :
      (o : Option Section)
      → find_section ctx.paper_meta.sections title ≡ o
      → is_abstract title ≡ false
      → Edited disk repr title body ctx (edited repr disk title body o ctx)
  edited-Edited none h plain = record {
    if_refused = λ _ _ _. refl;
    if_done = λ t e s. absurd (true-false (sym s ∙ ap (λ x. x.success) (sym (ok_injective e))));
    same_titles = refl;
  }
  edited-Edited (some s) h plain =
      saved-Edited _ _ refl (rw (plain, find-with_body title body ctx.paper_meta.sections, h) refl)
        (titles-with_body title body ctx.paper_meta.sections)

  edit_titled-Edited : Edited disk repr title body ctx (edit_titled repr disk title body ctx)
  edit_titled-Edited = elim (Bool-cases (is_abstract title)) [
    | inl e ↦ rw e (saved-Edited _ _ refl (rw e refl) refl)
    | inr e ↦ rw e (edited-Edited (find_section ctx.paper_meta.sections title) refl e)
  ]

module _ {W : Type 0} (disk : Disk W) (laws : Writes disk) (repr : Text → Text) (args again : Args)
    (ctx : ToolContext W) where
  edit_checked-Edited :
      (o b : Option Text) (title body : Text)
      → o ≡ some title
      → b ≡ some body
      → Edited disk repr title body ctx (edit_checked repr disk o b ctx)
  edit_checked-Edited o b title body is_title is_body =
      rw (is_title, is_body) (edit_titled-Edited disk laws repr title body ctx)

  -- Where a write that returns has written its file, and for a title and a body that are strings, the
  -- title not empty: if `edit_section` succeeds,
  -- `read_paper` returns that body for that title, and both files hold the paper that is in memory; if
  -- it is refused, nothing is changed, in memory or outside; and the titles of the sections are the
  -- same however it ends, also when a write fails.
  pub read_paper-edit_section :
      (title body : Text)
      → non_empty (as_string (arg (text "section_title") args)) ≡ some title
      → as_string (arg (text "new_body_md") args) ≡ some body
      → arg (text "section_title") again ≡ Value.string title
      → ((t : ToolResult)
          → (edit_section repr disk args ctx).0 ≡ ok t
          → t.success ≡ true
          → ((read_paper repr again (edit_section repr disk args ctx).1).0.detail ≡ some body)
            × Stored disk
                (edit_section repr disk args ctx).1.paper_meta
                (edit_section repr disk args ctx).1.world)
        × ((t : ToolResult)
            → (edit_section repr disk args ctx).0 ≡ ok t
            → t.success ≡ false
            → (edit_section repr disk args ctx).1 ≡ ctx)
        × (section_titles (edit_section repr disk args ctx).1.paper_meta
            ≡ section_titles ctx.paper_meta)
  unfolding edit_section read_paper
  read_paper-edit_section title body is_title is_body same =
      let e = edit_checked-Edited _ _ title body is_title is_body in
      (λ t a s. rw same (e.if_done t a s), e.if_refused, e.same_titles)
