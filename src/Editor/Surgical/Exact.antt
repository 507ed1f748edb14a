-- ===== src/Editor/Surgical/Exact.antt =====
-- editor_tools/tools.py: what the loop of `SurgicalEditTool` over its hits makes of the paper.
use mathodology.Prelude.{
  ℕ, suc, ◌+◌, ◌≤◌, ◌<◌, ◌≡◌, refl, sym, ap, subst, inl, inr, Bool, true, false, Option, none, some,
  List, [], ◌∷◌, ◌++◌, arith, if◌then◌else◌, ltb, map, keep, length, length-append, Bool-cases,
  ltb→lt,
}
use mathlib.Core.List.{append_assoc}
use mathodology.Text.{Text, text}
use mathodology.Text.Replace.{occurrences, replace}
use mathodology.Text.Replace.Laws.{replace-absent}
use mathodology.Editor.Meta.{Section, Meta, or_else, or_empty}
use mathodology.Editor.Targets.{
  Target, section_targets, abstract_targets, hits_of, total, set_body, editable_targets,
}
use mathodology.Editor.Surgical.{Edit, new_body, apply_hits}

-- The label under which a section is a target.
abbrev pub label_of : Section → Text
label_of s = or_else (text "(untitled)") s.title

-- A body with every occurrence replaced.
abbrev pub edited_body : Text → Text → Option Text → Option Text
edited_body old new none = none
edited_body old new (some t) = some (replace old new t)

-- A section with every occurrence replaced, if its label is in the scope.
abbrev pub edited_section : (Text → Bool) → Text → Text → Section → Section
edited_section inside old new s =
    if inside (label_of s)
    then record s { body_markdown = edited_body old new s.body_markdown }
    else s

-- The paper with every occurrence replaced in every body of the scope.
unfoldable pub edited_paper : (Text → Bool) → Text → Text → Meta → Meta
edited_paper inside old new meta = record meta {
  abstract = if inside (text "Abstract") then edited_body old new meta.abstract else meta.abstract;
  sections = map (edited_section inside old new) meta.sections;
}

ltb_zero : (k : ℕ) → ltb 0 k ≡ false → k ≡ 0
ltb_zero k h = ground arith

snoc_length : (pre : List Section) (s : Section) → length (pre ++ s ∷ []) ≡ suc (length pre)
snoc_length pre s = omega (arith, length-append pre (s ∷ []))

set_body-there :
    (pre rest : List Section) (s : Section) (b : Text)
    → set_body (length pre) b (pre ++ s ∷ rest) ≡ pre ++ record s { body_markdown = some b } ∷ rest
unfolding set_body
set_body-there [] rest s b = refl
set_body-there (x ∷ pre) rest s b = ap (λ r. x ∷ r) (set_body-there pre rest s b)

-- With at most `n` occurrences in a body, the new body has each of them replaced.
module _ (e : Edit) (n : ℕ) (absent : occurrences e.old_text [] ≡ 0)
    (fits : (b : Text)
      → 0 < occurrences e.old_text b
      → occurrences e.old_text b ≤ n
      → new_body e b ≡ replace e.old_text e.new_text b)
    (inside : Text → Bool) where
  kept_body :
      (b : Option Text)
      → occurrences e.old_text (or_empty b) ≡ 0
      → edited_body e.old_text e.new_text b ≡ b
  kept_body none h = refl
  kept_body (some t) h = ap some (replace-absent e.old_text e.new_text t h)

  changed_body :
      (b : Option Text)
      → 0 < occurrences e.old_text (or_empty b)
      → edited_body e.old_text e.new_text b ≡ some (replace e.old_text e.new_text (or_empty b))
  changed_body none h = absurd (omega (arith, h, absent))
  changed_body (some t) h = refl

  abbrev kept_targets : ℕ → List Section → List Target
  kept_targets i rest = keep (λ t. inside t.label) (section_targets i rest)

  -- The hits among the targets from position `i` on turn the sections `from` into `to`.
  abbrev Turns : ℕ → List Section → List Section → List Section → Meta → Type 0
  Turns i rest before after meta =
      total (hits_of e.old_text (kept_targets i rest)) ≤ n
      → apply_hits e (hits_of e.old_text (kept_targets i rest)) (record meta { sections = before })
        ≡ record meta { sections = after }

  -- The sections from position `length pre` on are edited, and the others kept.
  abbrev Edits : Meta → List Section → List Section → Type 0
  Edits meta rest pre =
      Turns (length pre) rest (pre ++ rest)
        (pre ++ map (edited_section inside e.old_text e.new_text) rest) meta

  advance :
      (meta : Meta) (rest pre : List Section) (s : Section)
      → Edits meta rest (pre ++ s ∷ [])
      → Turns
          (suc (length pre))
          rest
          (pre ++ s ∷ rest)
          (pre ++ s ∷ map (edited_section inside e.old_text e.new_text) rest)
          meta
  advance meta rest pre s h =
      subst
        (λ i.
          Turns i rest (pre ++ s ∷ rest)
            (pre ++ s ∷ map (edited_section inside e.old_text e.new_text) rest) meta)
        (snoc_length pre s)
        (subst
          (λ l.
            Turns (length (pre ++ s ∷ [])) rest l
              (pre ++ s ∷ map (edited_section inside e.old_text e.new_text) rest) meta)
          (append_assoc pre (s ∷ []) rest)
          (subst (λ l. Turns (length (pre ++ s ∷ [])) rest ((pre ++ s ∷ []) ++ rest) l meta)
            (append_assoc pre (s ∷ []) (map (edited_section inside e.old_text e.new_text) rest)) h))

  abbrev edited_inside : Section → Section
  edited_inside s = record s { body_markdown = edited_body e.old_text e.new_text s.body_markdown }

  -- One more section at the front, that has no hit.
  pass_section :
      (meta : Meta) (s : Section) (rest pre : List Section)
      → occurrences e.old_text (or_empty s.body_markdown) ≡ 0
      → Edits meta rest (pre ++ s ∷ [])
      → Turns
          (suc (length pre))
          rest
          (pre ++ s ∷ rest)
          (pre ++ edited_inside s ∷ map (edited_section inside e.old_text e.new_text) rest)
          meta
  pass_section meta s rest pre h edits =
      subst
        (λ b.
          Turns (suc (length pre)) rest (pre ++ s ∷ rest)
            (pre
              ++ record s { body_markdown = b }
                ∷ map (edited_section inside e.old_text e.new_text) rest)
            meta)
        (sym (kept_body s.body_markdown h)) (advance meta rest pre s edits)

  -- One that has.
  hit_section :
      (meta : Meta) (s : Section) (rest pre : List Section)
      → ltb 0 (occurrences e.old_text (or_empty s.body_markdown)) ≡ true
      → ((s' : Section) → Edits meta rest (pre ++ s' ∷ []))
      → occurrences e.old_text (or_empty s.body_markdown)
          + total (hits_of e.old_text (kept_targets (suc (length pre)) rest))
        ≤ n
      → apply_hits e (hits_of e.old_text (kept_targets (suc (length pre)) rest)) (record meta {
        sections = set_body (length pre) (new_body e (or_empty s.body_markdown)) (pre ++ s ∷ rest);
      })
        ≡ record meta {
          sections =
              pre ++ edited_inside s ∷ map (edited_section inside e.old_text e.new_text) rest;
        }
  hit_section meta s rest pre found edits few =
      let body = or_empty s.body_markdown in
      let positive = ltb→lt 0 (occurrences e.old_text body) found in
      rw
        (
          set_body-there pre rest s (new_body e body),
          changed_body s.body_markdown positive,
          sym (fits body positive (omega (arith, few))),
        )
        (advance meta rest pre (record s { body_markdown = some (new_body e body) }) (edits _)
          (omega (arith, few)))

  sections_edited : (meta : Meta) (rest pre : List Section) → Edits meta rest pre
  unfolding hits_of apply_hits
  sections_edited meta [] pre = λ h. refl
  sections_edited meta (s ∷ rest) pre = elim (Bool-cases (inside (label_of s))) [
    | inr out ↦ rw out (advance meta rest pre s (sections_edited meta rest (pre ++ s ∷ [])))
    | inl within ↦ elim (Bool-cases (ltb 0 (occurrences e.old_text (or_empty s.body_markdown)))) [
      | inl found ↦
          rw (within, found)
            (hit_section meta s rest pre found (λ s'. sections_edited meta rest (pre ++ s' ∷ [])))
      | inr not_found ↦
          rw (within, not_found)
            (pass_section meta s rest pre (ltb_zero _ not_found)
              (sections_edited meta rest (pre ++ s ∷ [])))
    ]
  ]

  -- The sections, whatever the abstract is.
  all_sections :
      (meta : Meta) (a : Option Text)
      → Turns 0 meta.sections meta.sections
          (map (edited_section inside e.old_text e.new_text) meta.sections)
          (record meta { abstract = a })
  all_sections meta a = sections_edited (record meta { abstract = a }) meta.sections []

  -- The abstract, with the sections.
  abstract_edited :
      (meta : Meta) (a : Option Text)
      → total (
          hits_of e.old_text
            (keep (λ t. inside t.label) (abstract_targets a ++ section_targets 0 meta.sections)))
        ≤ n
      → apply_hits e
          (hits_of e.old_text
            (keep (λ t. inside t.label) (abstract_targets a ++ section_targets 0 meta.sections)))
          (record meta { abstract = a })
        ≡ edited_paper inside e.old_text e.new_text (record meta { abstract = a })
  unfolding hits_of apply_hits edited_paper
  abstract_edited meta none = elim (Bool-cases (inside (text "Abstract"))) [
    | inr out ↦ rw out (all_sections meta none)
    | inl within ↦ rw within (all_sections meta none)
  ]
  abstract_edited meta (some a) = elim (Bool-cases (inside (text "Abstract"))) [
    | inr out ↦ rw out (all_sections meta (some a))
    | inl within ↦ elim (Bool-cases (ltb 0 (occurrences e.old_text a))) [
      | inl found ↦
          rw (within, found)
            (λ few.
              let positive = ltb→lt 0 (occurrences e.old_text a) found in
              rw (sym (fits a positive (omega (arith, few))))
                (all_sections meta (some (new_body e a)) (omega (arith, few))))
      | inr not_found ↦
          rw (within, not_found, replace-absent e.old_text e.new_text a (ltb_zero _ not_found))
            (all_sections meta (some a))
    ]
  ]

  pub paper_edited :
      (meta : Meta)
      → total (hits_of e.old_text (keep (λ t. inside t.label) (editable_targets meta))) ≤ n
      → apply_hits e (hits_of e.old_text (keep (λ t. inside t.label) (editable_targets meta))) meta
        ≡ edited_paper inside e.old_text e.new_text meta
  unfolding editable_targets
  paper_edited meta = abstract_edited meta meta.abstract
