-- ===== src/Hooks/Reminder.antt =====
-- agents/hooks.py: when there is a reminder, and what a Critic's verdict becomes as a hook result.
use mathlib.Core.List.{append-nil}
use mathodology.Hooks.Aggregate.{aggregate_lem}
use mathodology.Prelude.{
  ◌&&◌, sym, ap, ◌∙◌, ◌≡◌, refl, ◌≢◌, ◌↔◌, ◌⊎◌, inl, inr, true, false, some, List, [], ◌∷◌, ◌++◌,
  arith, any, take, keep, All, Any, Bool-cases,
}
use mathodology.Text.{Text, truthy, strip, join, newline}
use mathodology.Text.Strip.{Begins, strip-Begins, join-Begins, truthy-Begins, strip-nil}
use mathodology.Contracts.{CritiqueFinding, CritiqueReport, blocking, is_blocking}
use mathodology.Hooks.{
  AggregatedHookResult, non_blank, or_none, is_note, bullet, bullets, cleaned, tagged, aggregate,
  merged_reminder, is_block, should_block, decision_of, reminder_lines, critique_to_hook_result,
}

falsy : (s : Text) → truthy s ≡ false → s ≡ []
falsy [] e = refl
falsy (c ∷ s) e = cc

cleaned-nil : (cs : List Text) → cleaned cs ≡ [] → All (λ c. strip c ≡ []) cs
cleaned-nil [] e = tt
cleaned-nil ([] ∷ cs) e = (strip-nil, cleaned-nil cs e)
cleaned-nil ((d ∷ t) ∷ cs) e = ground (arith, cleaned-nil cs, falsy (strip (d ∷ t)))

All-cleaned : (cs : List Text) → All (λ c. strip c ≡ []) cs → cleaned cs ≡ []
All-cleaned [] h = refl
All-cleaned ([] ∷ cs) h = All-cleaned cs h.1
All-cleaned ((d ∷ t) ∷ cs) h = rw h.0 (All-cleaned cs h.1)

tagged-nil : (cs : List Text) → tagged cs ≡ [] → cs ≡ []
tagged-nil [] e = refl
tagged-nil (c ∷ cs) e = cc

-- The merged reminder is empty exactly if every collected context is blank.
pub merged_reminder-nil :
    {Json : Type 0} (agg : AggregatedHookResult Json)
    → (merged_reminder agg ≡ []) ↔ All (λ c. strip c ≡ []) agg.additional_contexts
unfolding merged_reminder
merged_reminder-nil agg = (
  λ e. cleaned-nil agg.additional_contexts (tagged-nil (cleaned agg.additional_contexts) e),
  λ h. rw (All-cleaned agg.additional_contexts h),
)

any-blocking :
    (fs : List CritiqueFinding)
    → any (λ f. is_blocking f.severity) fs ≡ true
    → Any (λ f. f.severity ≡ blocking) fs
any-blocking [] e = cc
any-blocking (f ∷ fs) e = ground (arith, any-blocking fs)

Any-blocking :
    (fs : List CritiqueFinding)
    → Any (λ f. f.severity ≡ blocking) fs
    → any (λ f. is_blocking f.severity) fs ≡ true
Any-blocking [] e = absurd e
Any-blocking (f ∷ fs) e = ground (arith, Any-blocking fs)

-- The lines of a reminder begin with `U` or `-`, so what strips them leaves something.
abbrev Solid : Text → Type 0
Solid s = Begins b'U' s ⊎ Begins b'-' s

bullet-lines : (f : CritiqueFinding) → All Solid (bullet f)
bullet-lines f = elim (Bool-cases (truthy f.message)) [
  | inl e ↦ rw e (inr (_, refl), tt)
  | inr e ↦ rw e tt
]

append-All : (xs ys : List Text) → All Solid xs → All Solid ys → All Solid (xs ++ ys)
append-All [] ys h k = k
append-All (x ∷ xs) ys h k = (h.0, append-All xs ys h.1 k)

bullets-lines : (fs : List CritiqueFinding) → All Solid (bullets fs)
bullets-lines [] = tt
bullets-lines (f ∷ fs) = append-All (bullet f) (bullets fs) (bullet-lines f) (bullets-lines fs)

Solid-strip : (s : Text) → Solid s → Solid (strip s)
Solid-strip s (inl h) = inl (strip-Begins b'U' refl s h)
Solid-strip s (inr h) = inr (strip-Begins b'-' refl s h)

Solid-join : (s : Text) (rest : List Text) → Solid s → Solid (join (newline ∷ []) (s ∷ rest))
Solid-join s rest (inl h) = inl (join-Begins b'U' (newline ∷ []) s rest h)
Solid-join s rest (inr h) = inr (join-Begins b'-' (newline ∷ []) s rest h)

Solid-truthy : (s : Text) → Solid s → truthy s ≡ true
Solid-truthy s (inl h) = truthy-Begins b'U' s h
Solid-truthy s (inr h) = truthy-Begins b'-' s h

or_none-truthy : (s : Text) → truthy s ≡ true → or_none s ≡ some s
or_none-truthy [] e = cc
or_none-truthy (c ∷ s) e = refl

-- The reminder that one context of these lines becomes.
abbrev of_lines : List Text → Text
of_lines lines = tagged (cleaned (non_blank (or_none (strip (join (newline ∷ []) lines)))))

of_context-ne : (t : Text) → Solid t → tagged (cleaned (non_blank (or_none t))) ≢ []
of_context-ne t h =
    let st : truthy (strip t) ≡ true = Solid-truthy (strip t) (Solid-strip t h) in
    let sst : truthy (strip (strip t)) ≡ true =
      Solid-truthy (strip (strip t)) (Solid-strip (strip t) (Solid-strip t h)) in
    rw (or_none-truthy t (Solid-truthy t h), Solid-truthy t h, st, st, sst) (λ e. cc)

of_lines-nil : (lines : List Text) → All Solid lines → of_lines lines ≡ [] → lines ≡ []
of_lines-nil [] h e = refl
of_lines-nil (s ∷ rest) h e = absurd (of_context-ne _ (Solid-strip _ (Solid-join s rest h.0)) e)

nil-of_lines : (lines : List Text) → lines ≡ [] → of_lines lines ≡ []
unfolding join strip
nil-of_lines lines e = rw e

bullet-nil : (f : CritiqueFinding) → bullet f ≡ [] ↔ f.message ≡ []
bullet-nil f = (λ e. falsy f.message (ground arith), λ e. ground arith)

bullets-nil : (fs : List CritiqueFinding) → bullets fs ≡ [] → All (λ f. f.message ≡ []) fs
bullets-nil [] e = tt
bullets-nil (f ∷ fs) e = ground (arith, bullets-nil fs, falsy f.message)

nil-bullets : (fs : List CritiqueFinding) → All (λ f. f.message ≡ []) fs → bullets fs ≡ []
nil-bullets [] h = refl
nil-bullets (f ∷ fs) h = rw (h.0) (nil-bullets fs h.1)

module _ {Num : Type 0} (report : CritiqueReport Num) where
  -- The minor and informational findings that a reminder lists: the first five.
  abbrev pub noted : List CritiqueFinding
  noted = take 5 (keep (λ f. is_note f.severity) report.findings)

  lines-Solid : All Solid (reminder_lines report)
  unfolding reminder_lines
  lines-Solid = elim (Bool-cases (truthy report.summary)) [
    | inl e ↦ rw e (inl (_, refl), bullets-lines noted)
    | inr e ↦ rw e (bullets-lines noted)
  ]

  lines-nil :
      (reminder_lines report ≡ []) ↔ ((report.summary ≡ []) × All (λ f. f.message ≡ []) noted)
  unfolding reminder_lines
  lines-nil = (
    λ e. ground (arith, falsy report.summary, bullets-nil noted),
    λ h. rw (h.0) (nil-bullets noted h.1),
  )

  module _ (Json : Type 0) where
    verdict-of_lines :
        merged_reminder (aggregate {Json = Json} (critique_to_hook_result report ∷ []))
        ≡ of_lines (reminder_lines report)
    unfolding merged_reminder critique_to_hook_result
    verdict-of_lines =
        ap (λ cs. tagged (cleaned cs))
          ((aggregate_lem {Json = Json} (critique_to_hook_result report ∷ [])).1 ∙ append-nil _)

    -- The reminder that a verdict leaves is empty exactly if the verdict has no summary and none of
    -- its first five minor or informational findings has a message.
    pub reminder-nil :
        (merged_reminder (aggregate {Json = Json} (critique_to_hook_result report ∷ [])) ≡ [])
        ↔ ((report.summary ≡ []) × All (λ f. f.message ≡ []) noted)
    reminder-nil = (
      λ e.
          lines-nil.0 (of_lines-nil (reminder_lines report) lines-Solid (sym verdict-of_lines ∙ e)),
      λ h. verdict-of_lines ∙ nil-of_lines (reminder_lines report) (lines-nil.1 h),
    )

    -- The aggregate of one verdict blocks exactly if the verdict's decision is to block and its
    -- summary, the reason, is not empty.
    pub should_block-verdict :
        should_block (aggregate {Json = Json} (critique_to_hook_result report ∷ []))
        ≡ (is_block (some (decision_of report)) && truthy report.summary)
    unfolding critique_to_hook_result
    should_block-verdict =
        rw ((aggregate_lem {Json = Json} (critique_to_hook_result report ∷ [])).0) (ground arith)
