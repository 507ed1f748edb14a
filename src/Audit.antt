-- ===== src/Audit.antt =====
-- audit.py: the rule-based audit of the finished paper. Python's Unicode tables, `Path(p).stem` and
-- the sentinel file that the kernel writes are outside, in `Library`.
pub mod Orphans
pub mod Coverage
pub mod Report
pub mod Tests
use mathodology.Prelude.{
  ℕ, zero, suc, ◌+◌, ◌-◌, Bool, true, false, not, ◌&&◌, ◌||◌, Option, none, some, List, [], ◌∷◌,
  ◌++◌, leb, ◌==◌, if◌then◌else◌, length, take, keep, any, map,
}
use mathodology.Text.{Text, text, ◌=ₜ◌, truthy, is_space, strip, join, newline, decimal}
use mathodology.Text.Match.{after_prefix, span, contains, text_lt}
use mathodology.Contracts.Artifacts.{AnalyzerOutput, CoderOutput, Figure, PaperDraft}

pub data DispatchTarget : Type 0 where
  coder writer : DispatchTarget

pub data AuditSeverity : Type 0 where
  blocking warning : AuditSeverity

pub record AuditFinding : Type 0 where
  pub code : Text
  pub severity : AuditSeverity
  pub dispatch_to : Option DispatchTarget
  pub message : Text
  pub fix_hint : Text

pub record AuditReport : Type 0 where
  pub findings : List AuditFinding

abbrev pub blocks : AuditFinding → Bool
blocks f = elim f.severity [ blocking ↦ true | warning ↦ false ]

-- `dispatch_to == agent`
abbrev pub sent_to : DispatchTarget → Option DispatchTarget → Bool
sent_to coder (some coder) = true
sent_to writer (some writer) = true
sent_to _ _ = false

unfoldable pub passed : AuditReport → Bool
passed report = not (any blocks report.findings)

unfoldable pub blocking_for : DispatchTarget → AuditReport → List AuditFinding
blocking_for agent report = keep (λ f. blocks f && sent_to agent f.dispatch_to) report.findings

abbrev pub hint_of : List Text → Text
hint_of [] = []
hint_of (h ∷ hs) =
    text "<audit_findings>"
    ++ newline ∷ text "The paper audit found these issues you must fix:"
    ++ newline ∷ join (newline ∷ []) (map (λ x. text "- " ++ x) (h ∷ hs))
    ++ newline ∷ text "</audit_findings>"

unfoldable pub merged_hint_for : DispatchTarget → AuditReport → Text
unfolding blocking_for
merged_hint_for agent report = hint_of (map (λ f. f.fix_hint) (blocking_for agent report))

-- What the checks ask of Python and of the disk.
pub record Library (W : Type 0) : Type 0 where
  -- `str.lower`, and `\d` of one character
  pub lower : Text → Text
  pub is_digit : ℕ → Bool
  -- `Path(p).stem`
  pub stem : Text → Text
  -- the text of `.cjk_font_ok`; `none` if there is no such file or it cannot be read
  pub font_sentinel : W → Option Text

abbrev pub min_references : ℕ
min_references = 8

abbrev pub few_references : ℕ → AuditFinding
few_references n = record {
  code = text "few_references";
  severity = blocking;
  dispatch_to = some writer;
  message =
      text "paper has only "
      ++ decimal n
      ++ text " reference(s); minimum threshold is "
      ++ decimal min_references;
  fix_hint =
      text "The paper currently lists "
      ++ decimal n
      ++ text " references but a CUMCM/MCM paper of this length must cite at least "
      ++ decimal min_references
      ++ text
          ". Pull more candidates from coder context / SearchFindings, weave them into the prose with [N] inline markers, and add full bibliographic entries to the references list. Do NOT invent citations.";
}

pub check_reference_count : PaperDraft → Option AuditFinding
check_reference_count paper =
    if leb min_references (length paper.references)
    then none
    else some (few_references (length paper.references))

-- `_FIG_EMBED_RE`, at the beginning of a text: the path under figures/, and the length of the match.
abbrev pub path_of : Text × Text → Option Text
path_of ([], rest) = none
path_of (p ∷ path, []) = none
path_of (p ∷ path, c ∷ rest) = some (p ∷ path)

abbrev pub embed_after : Text × Text → Option (Text × ℕ)
embed_after (alt, rest) = elim (after_prefix (text "](figures/") rest) [
  | none ↦ none
  | some t ↦ elim (path_of (span (λ c. not (c == 41)) t)) [
    | none ↦ none
    | some path ↦ some (path, 2 + length alt + 10 + length path + 1)
  ]
]

abbrev pub embed_at : Text → Option (Text × ℕ)
embed_at t = elim (after_prefix (text "![") t) [
  | none ↦ none
  | some rest ↦ embed_after (span (λ c. not (c == 93)) rest)
]

-- `_FIG_EMBED_RE.findall(t)`, with the characters of a match that are still to be skipped.
unfoldable pub embeds : ℕ → Text → List Text
embeds skip [] = []
embeds (suc k) (c ∷ t) = embeds k t
embeds zero (c ∷ t) = elim (embed_at (c ∷ t)) [
  | none ↦ embeds zero t
  | some (path, n) ↦ path ∷ embeds (n - 1) t
]

abbrev pub member : Text → List Text → Bool
member x xs = any (λ y. x =ₜ y) xs

-- `set(xs)`, each text once.
abbrev pub distinct : List Text → List Text
distinct [] = []
distinct (x ∷ xs) = let rest = distinct xs in if member x rest then rest else x ∷ rest

abbrev pub insert_sorted : Text → List Text → List Text
insert_sorted x [] = x ∷ []
insert_sorted x (y ∷ ys) =
    let rest = insert_sorted x ys in if text_lt y x then y ∷ rest else x ∷ y ∷ ys

-- `sorted(xs)`
abbrev pub sorted : List Text → List Text
sorted [] = []
sorted (x ∷ xs) = insert_sorted x (sorted xs)

-- The ids that are declared and not embedded.
unfoldable pub orphans_of : List Text → List Text → List Text
orphans_of declared embedded = keep (λ id. not (member id embedded)) (distinct declared)

abbrev pub orphan_figures : ℕ → List Text → Option AuditFinding
orphan_figures total [] = none
orphan_figures total (o ∷ os) = some (record {
  code = text "orphan_figures";
  severity = blocking;
  dispatch_to = some writer;
  message =
      decimal (length (o ∷ os))
      ++ text " of "
      ++ decimal total
      ++ text " coder figures are not embedded in paper.md: "
      ++ join (text ", ") (sorted (o ∷ os));
  fix_hint =
      text "Coder produced "
      ++ decimal total
      ++ text " figures but only "
      ++ decimal (total - length (o ∷ os))
      ++ text
          " are referenced in your sections. Add `[[FIG:<id>]]` placeholders for the orphan figures ("
      ++ join (text ", ") (sorted (o ∷ os))
      ++ text
          ") in the sections where they best support the prose. Every embedded figure must have at least one sentence of surrounding discussion.";
})

-- The characters that may begin the heading of a sub-question, and those that may follow.
abbrev pub heads : ℕ → Bool
heads c = is_space c || any (λ d. c == d) (text "问题题目QqＱ")

abbrev pub follows_head : (ℕ → Bool) → ℕ → Bool
follows_head is_digit c = is_space c || is_digit c || any (λ d. c == d) (text ":：.0123456789、-")

abbrev pub without_heading : (ℕ → Bool) → Text → Text × Text → Text
without_heading is_digit q ([], rest) = q
without_heading is_digit q (c ∷ head, rest) = (span (follows_head is_digit) rest).1

abbrev pub uncovered_subquestions : List Text → Option AuditFinding
uncovered_subquestions [] = none
uncovered_subquestions (q ∷ qs) = some (record {
  code = text "uncovered_subquestions";
  severity = blocking;
  dispatch_to = some writer;
  message =
      decimal (length (q ∷ qs)) ++ text " sub-question(s) appear unaddressed in the paper body";
  fix_hint =
      text
        "The Analyzer surfaced these sub-questions but they don't appear (even paraphrased) in the rendered paper:"
      ++ newline ∷ join (newline ∷ []) (map (λ x. text "  - " ++ x) (q ∷ qs))
      ++ newline
        ∷ text
            "Each one must be answered explicitly — either in §1 (问题重述) or in a dedicated subsection — using concrete numbers from the Coder's results.";
})

abbrev pub cjk_glyphs_broken : AuditFinding
cjk_glyphs_broken = record {
  code = text "cjk_glyphs_broken";
  severity = blocking;
  dispatch_to = some coder;
  message =
      text
        "matplotlib could not resolve a CJK font; Chinese text in figures will render as Unicode replacement boxes";
  fix_hint =
      text
        "Your matplotlib figures cannot render Chinese characters — the kernel's CJK font lookup failed and every title / axis label / legend containing Chinese will be displayed as □ boxes in the exported PDF. Regenerate the figures with ENGLISH labels for titles, axis names, and legend entries. Keep the surrounding paper prose in Chinese; only the rendered figures need ASCII.";
}

abbrev pub found : Option AuditFinding → List AuditFinding
found none = []
found (some f) = f ∷ []

module _ {W : Type 0} (lib : Library W) where
  unfoldable pub check_figure_orphans :
      {Num : Type 0} → CoderOutput Num → Text → Option AuditFinding
  unfolding embeds orphans_of
  check_figure_orphans coder_out paper_md =
      let declared = map (λ f. f.id) coder_out.figures in
      orphan_figures (length (distinct declared))
        (orphans_of declared (map lib.stem (embeds 0 paper_md)))

  -- The phrase of a sub-question that the paper must contain.
  abbrev pub key_of : Text → Text
  key_of q = lib.lower (take 12 (strip (without_heading lib.is_digit q (span heads q))))

  unfoldable pub missing_of : List Text → Text → List Text
  missing_of [] paper_md = []
  missing_of (q ∷ qs) paper_md =
      let rest = missing_of qs paper_md in
      if truthy (strip (without_heading lib.is_digit q (span heads q)))
        && truthy (key_of q)
        && not (contains (key_of q) (lib.lower paper_md))
      then take 60 q ∷ rest
      else rest

  pub check_subquestion_coverage : AnalyzerOutput → Text → Option AuditFinding
  unfolding missing_of
  check_subquestion_coverage analysis paper_md =
      uncovered_subquestions (missing_of analysis.sub_questions paper_md)

  -- The finding that the text of the sentinel file gives.
  abbrev pub glyphs_of : Option Text → Option AuditFinding
  glyphs_of none = none
  glyphs_of (some content) =
      if lib.lower (strip content) =ₜ text "false" then some cjk_glyphs_broken else none

  pub check_figure_glyphs_broken : W → Option AuditFinding
  check_figure_glyphs_broken w = glyphs_of (lib.font_sentinel w)

  -- `run_paper_audit`: the checks in the order of `_CHECKS`.
  pub run_paper_audit :
      {Num : Type 0} → PaperDraft → Text → CoderOutput Num → AnalyzerOutput → W → AuditReport
  unfolding check_figure_orphans check_reference_count check_subquestion_coverage
      check_figure_glyphs_broken
  run_paper_audit paper paper_md coder_out analysis w = record {
    findings =
        found (check_reference_count paper)
        ++ (found (check_figure_orphans coder_out paper_md)
            ++ (found (check_subquestion_coverage analysis paper_md)
                ++ found (check_figure_glyphs_broken w)));
  }
