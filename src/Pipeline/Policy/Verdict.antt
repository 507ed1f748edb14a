-- ===== src/Pipeline/Policy/Verdict.antt =====
-- pipeline.py: when a report sends its artifact back, and how that fits the hook of agents/hooks.py.
use mathodology.Prelude.{◌<◌, ◌≡◌, ◌↔◌, ◌⊎◌, true, false, arith}
use mathodology.Float.{Float}
use mathodology.Contracts.{
  CritiqueReport, has_blocking_findings, major_finding_count, has_major_findings,
  checklist_pass_rate,
}
use mathodology.Pipeline.Policy.{
  CriticPolicy, min_score_for, min_pass_rate_for, critique_requires_revision,
}

module _ {Num : Type 0} ⦃fl : Float Num⦄ (policy : CriticPolicy Num)
    (report : CritiqueReport Num) where
  -- The report is good enough under the policy.
  pub record IsAcceptable : Type 0 where
    pub no_blocking : has_blocking_findings report ≡ false
    pub few_majors : major_finding_count report < 2
    pub scored : fl.lt report.score (min_score_for policy report.target_agent) ≡ false
    pub checked :
        fl.lt (checklist_pass_rate report) (min_pass_rate_for policy report.target_agent) ≡ false
    pub settled : (report.passed ≡ true) ⊎ (major_finding_count report ≡ 0)

  -- A report asks for no revision exactly if its budget is exhausted, or it has no blocking finding
  -- and at most one major one, its score and its checklist reach the thresholds of its stage, and it
  -- is passed or has no major finding.
  pub requires_revision_iff :
      (critique_requires_revision report policy ≡ false)
      ↔ ((report.budget_exhausted ≡ true) ⊎ IsAcceptable)
  unfolding critique_requires_revision has_major_findings
  requires_revision_iff = (λ e. ground arith, λ h. ground arith)
