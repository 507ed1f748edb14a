-- ===== src/Pipeline/Policy.antt =====
-- pipeline.py: the Critic's policy, and what it makes of a report.
pub mod Verdict
pub mod Tests
use mathodology.Prelude.{
  ℕ, ◌≤◌, ◌<◌, ◌≡◌, refl, ◌↔◌, ◌⊎◌, inl, inr, Bool, true, false, not, ◌&&◌, ◌||◌, Option, none,
  some, List, [], ◌∷◌, arith, ltb, leb, if◌then◌else◌,
}
use mathodology.Text.{Text}
use mathodology.Float.{Float}
use mathodology.Contracts.{
  Stage, analyzer, searcher, modeler, coder, writer, CritiqueReport, has_blocking_findings,
  major_finding_count, has_major_findings, checklist_pass_rate,
}

-- `_STAGE_ORDER`
abbrev pub stage_order : List Stage
stage_order = analyzer ∷ searcher ∷ modeler ∷ coder ∷ writer ∷ []

abbrev pub same_stage : Stage → Stage → Bool
same_stage analyzer analyzer = true
same_stage searcher searcher = true
same_stage modeler modeler = true
same_stage coder coder = true
same_stage writer writer = true
same_stage _ _ = false

pub same_stage_refl : (s : Stage) → same_stage s s ≡ true
same_stage_refl analyzer = refl
same_stage_refl searcher = refl
same_stage_refl modeler = refl
same_stage_refl coder = refl
same_stage_refl writer = refl

-- The element behind the first occurrence of `stage`.
pub after : Stage → List Stage → Option Stage
after stage [] = none
after stage (s ∷ []) = none
after stage (s ∷ t ∷ rest) =
    let later = after stage (t ∷ rest) in if same_stage stage s then some t else later

-- `_next_stage_after`
unfoldable pub next_stage_after : Stage → Option Stage
unfolding after
next_stage_after stage = after stage stage_order

-- `overrides.get(stage, default)`
abbrev pub get_or {ℓ} : {V : Type ℓ} → List (Stage × V) → Stage → V → V
get_or [] stage default = default
get_or ((s, v) ∷ rest) stage default = if same_stage stage s then v else get_or rest stage default

pub record CriticPolicy (Num : Type 0) : Type 0 where
  pub min_score : Num
  pub min_checklist_pass_rate : Num
  pub max_revision_rounds : ℕ
  pub coder_revision_iterations : ℕ
  pub max_revision_cost_rmb : Num
  pub estimated_review_cost_rmb : Num
  pub estimated_revision_cost_rmb : Num
  pub estimated_coder_revision_cost_rmb : Num
  pub min_score_overrides : List (Stage × Num)
  pub min_checklist_pass_rate_overrides : List (Stage × Num)
  pub max_revision_rounds_overrides : List (Stage × ℕ)

module _ {Num : Type 0} where
  abbrev pub min_score_for : CriticPolicy Num → Stage → Num
  min_score_for policy stage = get_or policy.min_score_overrides stage policy.min_score

  abbrev pub min_pass_rate_for : CriticPolicy Num → Stage → Num
  min_pass_rate_for policy stage =
      get_or policy.min_checklist_pass_rate_overrides stage policy.min_checklist_pass_rate

  abbrev pub max_rounds_for : CriticPolicy Num → Stage → ℕ
  max_rounds_for policy stage =
      get_or policy.max_revision_rounds_overrides stage policy.max_revision_rounds

module _ {Num : Type 0} ⦃fl : Float Num⦄ where
  -- `DEFAULT_CRITIC_POLICY`
  abbrev pub default_critic_policy : CriticPolicy Num
  default_critic_policy = record {
    min_score = fl.hundredths 80;
    min_checklist_pass_rate = fl.hundredths 85;
    max_revision_rounds = 2;
    coder_revision_iterations = 2;
    max_revision_cost_rmb = fl.hundredths 100;
    estimated_review_cost_rmb = fl.hundredths 14;
    estimated_revision_cost_rmb = fl.hundredths 30;
    estimated_coder_revision_cost_rmb = fl.hundredths 18;
    min_score_overrides = (searcher, fl.hundredths 75) ∷ [];
    min_checklist_pass_rate_overrides = (searcher, fl.hundredths 80) ∷ [];
    max_revision_rounds_overrides = (writer, 1) ∷ (analyzer, 1) ∷ (searcher, 1) ∷ [];
  }

  -- `_critique_requires_revision`
  unfoldable pub critique_requires_revision : CritiqueReport Num → CriticPolicy Num → Bool
  critique_requires_revision report policy =
      if report.budget_exhausted
      then false
      else if has_blocking_findings report
      then true
      else if leb 2 (major_finding_count report)
      then true
      else if fl.lt report.score (min_score_for policy report.target_agent)
      then true
      else if fl.lt (checklist_pass_rate report) (min_pass_rate_for policy report.target_agent)
      then true
      else if report.passed
      then false
      else has_major_findings report

-- `_critique_should_fail_run`
unfoldable pub critique_should_fail_run : {Num : Type 0} → CritiqueReport Num → Bool
critique_should_fail_run report =
    if has_blocking_findings report then not report.passed || report.budget_exhausted else false
