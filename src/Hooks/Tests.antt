-- ===== src/Hooks/Tests.antt =====
-- Tests of agents/hooks.py.
use mathodology.Prelude.{ℕ, ◌≡◌, ◌↔◌, false, Option, none, some, List, [], ◌∷◌, All}
use mathodology.Text.{Text, text}
use mathodology.Contracts.{modeler, Severity, minor, major, CritiqueFinding, CritiqueReport}
use mathodology.Hooks.{
  Decision, approve, block, HookResult, aggregate, merged_reminder, critique_to_hook_result,
}
use mathodology.Hooks.Aggregate.{reasons, contexts, last_patch, aggregate_lem}
use mathodology.Hooks.Reminder.{noted, reminder-nil}

abbrev hook : Decision → Text → Text → Option ℕ → HookResult ℕ
hook decision why context patch = record {
  decision = some decision;
  reason = some why;
  system_message = none;
  hook_specific_output =
      some (record { additional_context = some context; updated_artifact = patch });
  stop_reason = none;
}

abbrev hooks : List (HookResult ℕ)
hooks =
    hook block (text "no units") (text " check units ") (some 1)
    ∷ hook approve (text "fine") (text "  ") none
    ∷ hook block (text "no source") (text "cite it") (some 2)
    ∷ []

abbrev finding : Severity → CritiqueFinding
finding severity = record {
  severity = severity;
  area = text "data";
  message = text "no source";
  evidence = [];
  required_change = [];
}

abbrev report : CritiqueReport ℕ
report = record {
  target_agent = modeler;
  target_schema = text "ModelSpec";
  passed = false;
  score = 50;
  summary = [];
  findings = finding major ∷ finding minor ∷ finding major ∷ [];
  required_changes = [];
  roles = [];
  checklist = [];
  revision_round = 0;
  max_revision_rounds = 2;
  budget_exhausted = false;
}

aggregate_lem_example :
    ((aggregate hooks).blocking_errors ≡ reasons hooks)
    × ((aggregate hooks).additional_contexts ≡ contexts hooks)
    × ((aggregate hooks).updated_artifact ≡ last_patch hooks)
aggregate_lem_example = aggregate_lem hooks

reminder-nil_example :
    (merged_reminder (aggregate {Json = ℕ} (critique_to_hook_result report ∷ [])) ≡ [])
    ↔ ((report.summary ≡ []) × All (λ f. f.message ≡ []) (noted report))
reminder-nil_example = reminder-nil report ℕ
