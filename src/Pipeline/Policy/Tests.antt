-- ===== src/Pipeline/Policy/Tests.antt =====
-- Tests of the Critic's policy, in whole hundredths.
use mathodology.Prelude.{ℕ, ◌≡◌, ◌↔◌, ◌⊎◌, true, false, [], ◌∷◌}
use mathodology.Text.{text}
use mathodology.Float.{cents}
use mathodology.Contracts.{
  modeler, major, academic_reviewer, Severity, CritiqueFinding, CritiqueReport,
}
use mathodology.Pipeline.Policy.{default_critic_policy, critique_requires_revision}
use mathodology.Pipeline.Policy.Verdict.{IsAcceptable, requires_revision_iff}

abbrev finding : Severity → CritiqueFinding
finding severity = record {
  severity = severity;
  area = text "data";
  message = text "no source";
  evidence = [];
  required_change = text "cite it";
}

-- The only finding is one of a role.
abbrev by_role : Severity → CritiqueReport ℕ
by_role severity = record {
  target_agent = modeler;
  target_schema = text "ModelSpec";
  passed = false;
  score = 85;
  summary = text "see the reviewer";
  findings = [];
  required_changes = [];
  roles =
      record {
        role = academic_reviewer;
        passed = false;
        score = 40;
        summary = [];
        findings = finding severity ∷ [];
      }
      ∷ [];
  checklist = [];
  revision_round = 0;
  max_revision_rounds = 2;
  budget_exhausted = false;
}

requires_revision_iff_example :
    (critique_requires_revision (by_role major) default_critic_policy ≡ false) ↔ (
      ((by_role major).budget_exhausted ≡ true)
      ⊎ IsAcceptable default_critic_policy (by_role major))
requires_revision_iff_example = requires_revision_iff default_critic_policy (by_role major)
