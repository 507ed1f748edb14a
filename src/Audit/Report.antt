-- ===== src/Audit/Report.antt =====
-- audit.py: when a paper passes, and to whom the findings go.
use mathodology.Prelude.{
  ℕ, ◌≤◌, ◌≡◌, refl, ap, sym, ◌∙◌, inl, inr, Bool, true, false, ◌&&◌, Option, none, some, List, [],
  ◌∷◌, ◌++◌, leb, if◌then◌else◌, length, keep, map, All, Bool-cases,
}
use mathlib.Core.List.{append-nil}
use mathodology.Text.{Text, text, ◌=ₜ◌, strip}
use mathodology.Contracts.Artifacts.{AnalyzerOutput, CoderOutput, PaperDraft}
use mathodology.Audit.{
  DispatchTarget, coder, writer, AuditFinding, Library, blocks, sent_to, blocking_for,
  check_reference_count, member, orphan_figures, check_figure_orphans, embeds,
  uncovered_subquestions, missing_of, check_subquestion_coverage, cjk_glyphs_broken, glyphs_of,
  check_figure_glyphs_broken, found, run_paper_audit,
}
use mathodology.Audit.Coverage.{Covered, FontsFine}

-- A finding, if there is one, blocks and goes to `agent`.
abbrev Sent : DispatchTarget → Option AuditFinding → Type 0
Sent agent none = Unit
Sent agent (some f) = (blocks f ≡ true) × (f.dispatch_to ≡ some agent)

-- The findings of `findings` that block and go to `agent`.
abbrev for : DispatchTarget → List AuditFinding → List AuditFinding
for agent findings = keep (λ f. blocks f && sent_to agent f.dispatch_to) findings

own :
    (agent : DispatchTarget) (o : Option AuditFinding) (rest : List AuditFinding)
    → Sent agent o
    → for agent (found o ++ rest) ≡ found o ++ for agent rest
own agent none rest h = refl
own coder (some f) rest h = rw (h.0, h.1)
own writer (some f) rest h = rw (h.0, h.1)

others_writer :
    (o : Option AuditFinding) (rest : List AuditFinding)
    → Sent writer o
    → for coder (found o ++ rest) ≡ for coder rest
others_writer none rest h = refl
others_writer (some f) rest h = rw (h.0, h.1)

others_coder : (o : Option AuditFinding) → Sent coder o → for writer (found o) ≡ []
others_coder none h = refl
others_coder (some f) h = rw (h.0, h.1)

orphans-Sent : (n : ℕ) (os : List Text) → Sent writer (orphan_figures n os)
orphans-Sent n [] = tt
orphans-Sent n (o ∷ os) = (refl, refl)

uncovered-Sent : (qs : List Text) → Sent writer (uncovered_subquestions qs)
uncovered-Sent [] = tt
uncovered-Sent (q ∷ qs) = (refl, refl)

references-Sent : (paper : PaperDraft) → Sent writer (check_reference_count paper)
unfolding check_reference_count
references-Sent paper = elim (Bool-cases (leb 8 (length paper.references))) [
  | inl e ↦ rw e tt
  | inr e ↦ rw e (refl, refl)
]

fonts_found : (lib_says : Bool) → Sent coder (if lib_says then some cjk_glyphs_broken else none)
fonts_found true = (refl, refl)
fonts_found false = tt

glyphs-Sent : {W : Type 0} (lib : Library W) (o : Option Text) → Sent coder (glyphs_of lib o)
glyphs-Sent lib none = tt
glyphs-Sent lib (some content) = fonts_found (lib.lower (strip content) =ₜ text "false")

fonts-Sent : {W : Type 0} (lib : Library W) (w : W) → Sent coder (check_figure_glyphs_broken lib w)
unfolding check_figure_glyphs_broken
fonts-Sent lib w = glyphs-Sent lib (lib.font_sentinel w)

module _ {Num W : Type 0} (lib : Library W) (paper : PaperDraft) (paper_md : Text)
    (coder_out : CoderOutput Num) (analysis : AnalyzerOutput) (w : W) where
  -- What the audit asks of a paper.
  pub record IsReady : Type 0 where
    pub references : 8 ≤ length paper.references
    pub figures :
        All
          (λ id. member id (map lib.stem (embeds 0 paper_md)) ≡ true)
          (map (λ f. f.id) coder_out.figures)
    pub questions : All (Covered lib paper_md w) analysis.sub_questions
    pub fonts : FontsFine lib paper_md w

  figures-Sent : Sent writer (check_figure_orphans lib coder_out paper_md)
  unfolding check_figure_orphans
  figures-Sent = orphans-Sent _ _

  questions-Sent : Sent writer (check_subquestion_coverage lib analysis paper_md)
  unfolding check_subquestion_coverage
  questions-Sent = uncovered-Sent (missing_of lib analysis.sub_questions paper_md)

  -- The blocking findings of an audit for the Writer are those of the references, the figures and
  -- the sub-questions, in this order; those for the Coder are those of the fonts.
  pub blocking_for-run_paper_audit :
      let report = run_paper_audit lib paper paper_md coder_out analysis w in
      (blocking_for writer report
        ≡ found (check_reference_count paper)
          ++ (found (check_figure_orphans lib coder_out paper_md)
              ++ (found (check_subquestion_coverage lib analysis paper_md) ++ [])))
      × (blocking_for coder report ≡ found (check_figure_glyphs_broken lib w))
  unfolding run_paper_audit blocking_for
  blocking_for-run_paper_audit = (
    own writer _ _ (references-Sent paper)
        ∙ ap (λ x. found (check_reference_count paper) ++ x)
            (own writer _ _ figures-Sent
              ∙ ap (λ x. found (check_figure_orphans lib coder_out paper_md) ++ x)
                  (own writer _ _ questions-Sent
                    ∙ ap (λ x. found (check_subquestion_coverage lib analysis paper_md) ++ x)
                        (others_coder _ (fonts-Sent lib w)))),
    others_writer _ _ (references-Sent paper)
        ∙ others_writer _ _ figures-Sent
        ∙ others_writer _ _ questions-Sent
        ∙ (ap (for coder) (sym (append-nil (found (check_figure_glyphs_broken lib w))))
            ∙ own coder _ [] (fonts-Sent lib w)
            ∙ append-nil _),
  )
