-- ===== src/Editor/Surgical/Refinement.antt =====
-- editor_tools/tools.py: `SurgicalEditTool.execute` against its contract.
use mathodology.Prelude.{
  ℕ, ◌≤◌, ◌<◌, ◌≡◌, refl, sym, ap, subst, ◌∙◌, inl, inr, Bool, true, false, not, ◌&&◌, Option, none,
  some, [], ◌∷◌, arith, ltb, Bool-cases, none_some, true-false,
}
use mathodology.Text.{Text, text, truthy}
use mathodology.Text.Replace.{occurrences, replace}
use mathodology.Text.Replace.Laws.{splice-find, occurrences-nil}
use mathodology.Editor.Args.{Args, arg, as_string, non_empty}
use mathodology.Editor.Meta.{Meta, Disk, ToolContext, ToolResult}
use mathodology.Exec.{Result, ok}
use mathodology.Editor.Saving.{Writes, Stored, saved-Saved, saved_answer, ok_injective}
use mathodology.Editor.Targets.{total}
use mathodology.Editor.Surgical.{
  Checked, refused, passed, Edit, new_body, apply_hits, plan, perform, edit_result, surgical_edit,
}
use mathodology.Editor.Surgical.Exact.{edited_paper, paper_edited}
use mathodology.Editor.Surgical.Plan.{inside, Planned, plan-Planned}

non_empty-truthy : (o : Option Text) (t : Text) → non_empty o ≡ some t → truthy t ≡ true
non_empty-truthy none t h = absurd (none_some h)
non_empty-truthy (some []) t h = absurd (none_some h)
non_empty-truthy (some (c ∷ s)) t h =
    subst (λ o. elim o [ none ↦ true | some u ↦ truthy u ] ≡ true) h refl

exact_all :
    (e : Edit) (b : Text) → e.replace_all ≡ true → new_body e b ≡ replace e.old_text e.new_text b
unfolding new_body
exact_all e b h = rw h refl

exact_once :
    (e : Edit) (b : Text)
    → truthy e.old_text ≡ true
    → occurrences e.old_text b ≡ 1
    → new_body e b ≡ replace e.old_text e.new_text b
unfolding new_body
exact_once e b h once = elim (Bool-cases e.replace_all) [
  | inl all ↦ rw all refl
  | inr one ↦ rw one (splice-find e.old_text e.new_text b h once)
]

at_most_one : (k : ℕ) (b : Bool) → (ltb 1 k && not b) ≡ false → b ≡ false → k ≤ 1
at_most_one k true h e = absurd (true-false e)
at_most_one k false h e = ground arith

module _ (args : Args) (meta : Meta) (e : Edit) (p : Planned args meta e) where
  abbrev asked : Text → Bool
  asked = inside (arg (text "section_title") args)

  performed_within :
      (n : ℕ)
      → ((b : Text)
          → 0 < occurrences e.old_text b
          → occurrences e.old_text b ≤ n
          → new_body e b ≡ replace e.old_text e.new_text b)
      → total e.hits ≤ n
      → apply_hits e e.hits meta ≡ edited_paper asked e.old_text e.new_text meta
  performed_within n fits few =
      subst
        (λ hs. total hs ≤ n → apply_hits e hs meta ≡ edited_paper asked e.old_text e.new_text meta)
        p.hits_found (paper_edited e n (occurrences-nil e.old_text) fits asked meta) few

  performed : apply_hits e e.hits meta ≡ edited_paper asked e.old_text e.new_text meta
  performed = elim (Bool-cases e.replace_all) [
    | inl all ↦ performed_within (total e.hits) (λ b found few. exact_all e b all) (omega arith)
    | inr one ↦
        performed_within 1
          (λ b found few.
            exact_once e b (non_empty-truthy _ e.old_text p.old_given) (omega (arith, found, few)))
          (at_most_one (total e.hits) e.replace_all p.unique one)
  ]

some_injective : {a b : Text} → some a ≡ some b → a ≡ b
some_injective h = cc

-- What a run of the tool leaves, by how it ended.
record Contract {W : Type 0} (disk : Disk W) (args : Args) (ctx : ToolContext W)
    (r : Result ToolResult × ToolContext W) : Type 0 where
  if_done :
      (old new : Text) (t : ToolResult)
      → as_string (arg (text "old_text") args) ≡ some old
      → as_string (arg (text "new_text") args) ≡ some new
      → r.0 ≡ ok t
      → t.success ≡ true
      → let after =
          edited_paper (inside (arg (text "section_title") args)) old new ctx.paper_meta in
        (r.1 ≡ record ctx { paper_meta = after; world = r.1.world }) × Stored disk after r.1.world

edit_result-success : (e : Edit) → (edit_result e).success ≡ true
edit_result-success e = elim (Bool-cases e.replace_all) [
  | inl all ↦ rw all refl
  | inr one ↦ rw one refl
]

non_empty_string : (o : Option Text) (s t : Text) → o ≡ some s → non_empty o ≡ some t → s ≡ t
non_empty_string none s t h n = absurd (none_some h)
non_empty_string (some []) s t h n = absurd (none_some n)
non_empty_string (some (c ∷ u)) s t h n = some_injective (sym h ∙ n)

module _ {W : Type 0} (disk : Disk W) (repr : Text → Text) (args : Args) (ctx : ToolContext W) where
  perform-refused :
      (c : Checked Edit) (t : ToolResult)
      → (perform disk c ctx).0 ≡ ok t
      → t.success ≡ false
      → (perform disk c ctx).1 ≡ ctx
  perform-refused (refused r) t a f = refl
  perform-refused (passed e) t a f = absurd (
      true-false (
        sym (edit_result-success e)
        ∙ ap (λ x. x.success) (sym (saved_answer disk (edit_result e) t _ ctx a))
        ∙ f))

  -- An edit that is refused changes nothing, in memory or outside.
  pub surgical_edit-refused :
      (t : ToolResult)
      → (surgical_edit repr disk args ctx).0 ≡ ok t
      → t.success ≡ false
      → (surgical_edit repr disk args ctx).1 ≡ ctx
  unfolding surgical_edit
  surgical_edit-refused = perform-refused (plan repr args ctx.paper_meta)

module _ {W : Type 0} (disk : Disk W) (laws : Writes disk) (repr : Text → Text) (args : Args)
    (ctx : ToolContext W) where
  perform-Contract :
      (c : Checked Edit)
      → plan repr args ctx.paper_meta ≡ c
      → Contract disk args ctx (perform disk c ctx)
  perform-Contract (refused r) h = record {
    if_done = λ old new t o n a e.
        absurd (true-false (sym e ∙ ap (λ x. x.success) (sym (ok_injective a))));
  }
  perform-Contract (passed e) h =
      let p = plan-Planned repr args ctx.paper_meta e h in
      let s = saved-Saved disk laws (edit_result e) (apply_hits e e.hits ctx.paper_meta) ctx in
      record {
        if_done = λ old new t o n a done.
            rw
              (
                non_empty_string _ old e.old_text o p.old_given,
                some_injective (sym n ∙ p.new_given),
                sym (performed args ctx.paper_meta e p),
              )
              (s.in_memory, (s.answered t a).1);
      }

  surgical_edit-Contract : Contract disk args ctx (surgical_edit repr disk args ctx)
  unfolding surgical_edit
  surgical_edit-Contract = perform-Contract (plan repr args ctx.paper_meta) refl

  -- Where a write that returns has written its file: an edit that succeeds leaves the paper in which every occurrence of the anchor, in the abstract
  -- and in every section of the scope, is replaced and nothing else is changed, and both files on
  -- disk hold that paper; so it does for the one occurrence of the default and with `replace_all`.
  pub surgical_edit-edited_paper :
      (old new : Text) (t : ToolResult)
      → as_string (arg (text "old_text") args) ≡ some old
      → as_string (arg (text "new_text") args) ≡ some new
      → (surgical_edit repr disk args ctx).0 ≡ ok t
      → t.success ≡ true
      → let after =
          edited_paper (inside (arg (text "section_title") args)) old new ctx.paper_meta in
        ((surgical_edit repr disk args ctx).1
          ≡ record ctx { paper_meta = after; world = (surgical_edit repr disk args ctx).1.world })
        × Stored disk after (surgical_edit repr disk args ctx).1.world
  surgical_edit-edited_paper = surgical_edit-Contract.if_done
