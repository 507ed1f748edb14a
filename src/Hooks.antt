-- ===== src/Hooks.antt =====
-- agents/hooks.py: post-stage hooks. `Json` is the type of a patched artifact (`dict[str, Any]`).
pub mod Aggregate
pub mod Reminder
pub mod Tests
use mathodology.Prelude.{
  Bool, true, false, Option, none, some, List, [], ◌∷◌, ◌++◌, ◌&&◌, ◌||◌, leb, if◌then◌else◌, any,
  take, keep, map,
}
use mathodology.Text.{Text, text, truthy, strip, join, newline}
use mathodology.Contracts.{
  Severity, info, minor, is_blocking, is_major, stage_name, CritiqueFinding, CritiqueReport, count,
}

pub data Decision : Type 0 where
  approve block : Decision

module _ (Json : Type 0) where
  pub record PostStageOutput : Type 0 where
    pub additional_context : Option Text
    pub updated_artifact : Option Json

  pub record HookResult : Type 0 where
    pub decision : Option Decision
    pub reason : Option Text
    pub system_message : Option Text
    pub hook_specific_output : Option PostStageOutput
    pub stop_reason : Option Text

  pub record AggregatedHookResult : Type 0 where
    pub blocking_errors : List Text
    pub additional_contexts : List Text
    pub updated_artifact : Option Json

abbrev pub is_block : Option Decision → Bool
is_block (some block) = true
is_block (some approve) = false
is_block none = false

-- The bodies of the two `if`s on optional texts: what is appended, if anything.
abbrev pub non_empty : Option Text → List Text
non_empty none = []
non_empty (some t) = if truthy t then t ∷ [] else []

abbrev pub non_blank : Option Text → List Text
non_blank none = []
non_blank (some t) = if truthy t && truthy (strip t) then strip t ∷ [] else []

-- `x if x is not None else y`
abbrev pub or_else {ℓ} : {A : Type ℓ} → Option A → Option A → Option A
or_else none old = old
or_else (some new) old = some new

abbrev pub tagged : List Text → Text
tagged [] = []
tagged (c ∷ cs) =
    text "<system_reminder>"
    ++ newline ∷ join (newline ∷ newline ∷ []) (c ∷ cs)
    ++ newline ∷ text "</system_reminder>"

abbrev pub cleaned : List Text → List Text
cleaned cs = map strip (keep (λ c. truthy c && truthy (strip c)) cs)

module _ {Json : Type 0} where
  abbrev pub should_block : AggregatedHookResult Json → Bool
  should_block agg = elim agg.blocking_errors [ [] ↦ false | _ ∷ _ ↦ true ]

  unfoldable pub merged_reminder : AggregatedHookResult Json → Text
  merged_reminder agg = tagged (cleaned agg.additional_contexts)

  abbrev pub add_reason : HookResult Json → AggregatedHookResult Json → AggregatedHookResult Json
  add_reason r agg =
      if is_block r.decision
      then record agg { blocking_errors = agg.blocking_errors ++ non_empty r.reason }
      else agg

  abbrev pub add_output :
      Option (PostStageOutput Json) → AggregatedHookResult Json → AggregatedHookResult Json
  add_output none agg = agg
  add_output (some out) agg = record agg {
    additional_contexts = agg.additional_contexts ++ non_blank out.additional_context;
    updated_artifact = or_else out.updated_artifact agg.updated_artifact;
  }

  -- The loop of `aggregate`, over the results that are left.
  pub aggregate_from :
      List (HookResult Json) → AggregatedHookResult Json → AggregatedHookResult Json
  aggregate_from [] agg = agg
  aggregate_from (r ∷ rs) agg =
      aggregate_from rs (add_output r.hook_specific_output (add_reason r agg))

  unfoldable pub aggregate : List (HookResult Json) → AggregatedHookResult Json
  unfolding aggregate_from
  aggregate results =
      aggregate_from results
        (record { blocking_errors = []; additional_contexts = []; updated_artifact = none })

abbrev pub is_note : Severity → Bool
is_note minor = true
is_note info = true
is_note _ = false

-- One bullet of the reminder; a finding with no message adds none.
abbrev pub bullet : CritiqueFinding → List Text
bullet f =
    if truthy f.message
    then (text "- " ++ (if truthy f.area then text "[" ++ f.area ++ text "] " else []) ++ f.message)
      ∷ []
    else []

abbrev pub bullets : List CritiqueFinding → List Text
bullets [] = []
bullets (f ∷ fs) = bullet f ++ bullets fs

-- `s or None`
abbrev pub or_none : Text → Option Text
or_none [] = none
or_none (c ∷ s) = some (c ∷ s)

module _ {Num : Type 0} where
  unfoldable pub decision_of : CritiqueReport Num → Decision
  decision_of report =
      if any (λ f. is_blocking f.severity) report.findings
        || leb 2 (count (λ f. is_major f.severity) report.findings)
      then block
      else approve

  unfoldable pub reminder_lines : CritiqueReport Num → List Text
  reminder_lines report =
      (if truthy report.summary
        then (text "Upstream Critic summary ("
            ++ stage_name report.target_agent
            ++ text "): "
            ++ report.summary)
          ∷ []
        else [])
      ++ bullets (take 5 (keep (λ f. is_note f.severity) report.findings))

  unfoldable pub critique_to_hook_result : {Json : Type 0} → CritiqueReport Num → HookResult Json
  unfolding decision_of reminder_lines
  critique_to_hook_result report = record {
    decision = some (decision_of report);
    reason = if is_block (some (decision_of report)) then some report.summary else none;
    system_message = none;
    hook_specific_output = some (record {
      additional_context = or_none (strip (join (newline ∷ []) (reminder_lines report)));
      updated_artifact = none;
    });
    stop_reason = none;
  }
