-- ===== src/Pipeline/Rerun/Tests.antt =====
-- Tests of `_review_and_maybe_rerun_coder`: the Coder's second rerun raises an `AgentError`.
use mathodology.Prelude.{ℕ, ◌+◌, ◌≤◌, true, [], arith, ltb, if◌then◌else◌}
use mathodology.Text.{text}
use mathodology.Exec.{agent_error, ok, err, Exec}
use mathodology.Float.{cents}
use mathodology.Contracts.{CritiqueReport}
use mathodology.Events.{emit}
use mathodology.Pipeline.Policy.{default_critic_policy}
use mathodology.Pipeline.State.{emit_event}
use mathodology.Pipeline.Review.Tests.{services, start, strict}
use mathodology.Pipeline.Review.Bounds.{revisions, reviews, InBudget}
use mathodology.Pipeline.Review.Outcome.{Raises}
use mathodology.Pipeline.Review.Handover.{Ends}
use mathodology.Pipeline.Rerun.{coder_loop, review_and_maybe_rerun_coder}
use mathodology.Pipeline.Rerun.Outcome.{RerunFrom, rerun_coder_bounds, rerun_coder_outcome}

abbrev rerun : ℕ → CritiqueReport ℕ → Exec ℕ ℕ
rerun a report w = (if ltb a 1 then ok (a + 1) else err (agent_error (text "kernel died")), w + 18)

coder-Raises : Raises services (coder_loop (strict 2) rerun default_critic_policy true) (λ e. ⊥)
unfolding emit_event emit
coder-Raises = record {
  review_raises = λ a round w e h. cc;
  revise_raises = λ a report w e h k. ground arith;
  emit_raises = λ kind payload agent s e h. cc;
}

rerun_coder_bounds_example :
    let s' =
      (review_and_maybe_rerun_coder services
        (strict 2)
        rerun
        default_critic_policy
        true
        0
        start).1 in
    (revisions s'.calls ≤ 0 + 2)
    × (reviews s'.calls ≤ 0 + 2 + 1)
    × InBudget services (coder_loop (strict 2) rerun default_critic_policy true) s'.calls
rerun_coder_bounds_example =
    rerun_coder_bounds services (strict 2) rerun default_critic_policy true 0 start tt

rerun_coder_outcome_example :
    Ends
      (λ e. ⊥)
      (RerunFrom (coder_loop (strict 2) rerun default_critic_policy true) 0 [])
      (review_and_maybe_rerun_coder services (strict 2) rerun default_critic_policy true 0 start)
rerun_coder_outcome_example =
    rerun_coder_outcome services (strict 2) rerun default_critic_policy true (λ e. ⊥) coder-Raises 0
      start
