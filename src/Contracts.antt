-- ===== src/Contracts.antt =====
-- mm_contracts/agent_io.py: the Critic's report and what it derives from its findings.
pub mod Artifacts
use mathodology.Prelude.{
  ℕ, ◌+◌, Bool, true, false, Option, List, [], ◌∷◌, ◌++◌, ltb, if◌then◌else◌, any, length,
}
use mathodology.Text.{Text, text}
use mathodology.Float.{Float}

-- `ReviewTargetAgent`: the five stages, in the order of `_STAGE_ORDER`.
pub data Stage : Type 0 where
  analyzer searcher modeler coder writer : Stage

-- `CritiqueSeverity`
pub data Severity : Type 0 where
  info minor major blocking : Severity

pub data CriticRole : Type 0 where
  modeling_coach academic_reviewer code_reviewer : CriticRole

abbrev pub is_blocking : Severity → Bool
is_blocking blocking = true
is_blocking _ = false

abbrev pub is_major : Severity → Bool
is_major major = true
is_major _ = false

abbrev pub stage_name : Stage → Text
stage_name analyzer = text "analyzer"
stage_name searcher = text "searcher"
stage_name modeler = text "modeler"
stage_name coder = text "coder"
stage_name writer = text "writer"

pub record CritiqueFinding : Type 0 where
  pub severity : Severity
  pub area : Text
  pub message : Text
  pub evidence : Text
  pub required_change : Text

pub record CritiqueChecklistItem : Type 0 where
  pub id : Text
  pub label : Text
  pub passed : Bool
  pub evidence : Text

pub record RoleCritique (Num : Type 0) : Type 0 where
  pub role : CriticRole
  pub passed : Bool
  pub score : Num
  pub summary : Text
  pub findings : List CritiqueFinding

pub record CritiqueReport (Num : Type 0) : Type 0 where
  pub target_agent : Stage
  pub target_schema : Text
  pub passed : Bool
  pub score : Num
  pub summary : Text
  pub findings : List CritiqueFinding
  pub required_changes : List Text
  pub roles : List (RoleCritique Num)
  pub checklist : List CritiqueChecklistItem
  pub revision_round : ℕ
  pub max_revision_rounds : ℕ
  pub budget_exhausted : Bool

-- `sum(1 for x in xs if p(x))`
abbrev pub count {ℓ} : {A : Type ℓ} → (A → Bool) → List A → ℕ
count p [] = 0
count p (x ∷ xs) = (if p x then 1 else 0) + count p xs

module _ {Num : Type 0} where
  abbrev pub role_findings : List (RoleCritique Num) → List CritiqueFinding
  role_findings [] = []
  role_findings (r ∷ rs) = r.findings ++ role_findings rs

  unfoldable pub all_findings : CritiqueReport Num → List CritiqueFinding
  all_findings report = report.findings ++ role_findings report.roles

  unfoldable pub has_blocking_findings : CritiqueReport Num → Bool
  unfolding all_findings
  has_blocking_findings report = any (λ f. is_blocking f.severity) (all_findings report)

  unfoldable pub major_finding_count : CritiqueReport Num → ℕ
  unfolding all_findings
  major_finding_count report = count (λ f. is_major f.severity) (all_findings report)

  unfoldable pub has_major_findings : CritiqueReport Num → Bool
  unfolding major_finding_count
  has_major_findings report = ltb 0 (major_finding_count report)

module _ {Num : Type 0} ⦃fl : Float Num⦄ where
  abbrev pass_rate : List CritiqueChecklistItem → Num
  pass_rate [] = fl.hundredths 100
  pass_rate (item ∷ items) = fl.ratio (count (λ i. i.passed) (item ∷ items)) (length (item ∷ items))

  unfoldable pub checklist_pass_rate : CritiqueReport Num → Num
  checklist_pass_rate report = pass_rate report.checklist
