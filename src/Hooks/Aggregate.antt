-- ===== src/Hooks/Aggregate.antt =====
-- agents/hooks.py: what `aggregate` collects from the results of the hooks.
use mathodology.Prelude.{
  ◌≡◌, refl, ◌∙◌, Option, none, some, List, [], ◌∷◌, ◌++◌, arith, if◌then◌else◌,
}
use mathlib.Core.List.{append-nil, append_assoc}
use mathodology.Text.{Text}
use mathodology.Hooks.{
  HookResult, PostStageOutput, AggregatedHookResult, is_block, non_empty, non_blank, or_else,
  add_reason, add_output, aggregate_from, aggregate,
}

module _ {Json : Type 0} where
  -- The reasons that block, in order.
  abbrev pub reasons : List (HookResult Json) → List Text
  reasons [] = []
  reasons (r ∷ rs) = (if is_block r.decision then non_empty r.reason else []) ++ reasons rs

  abbrev pub context_of : Option (PostStageOutput Json) → List Text
  context_of none = []
  context_of (some out) = non_blank out.additional_context

  abbrev pub patch_of : Option (PostStageOutput Json) → Option Json
  patch_of none = none
  patch_of (some out) = out.updated_artifact

  abbrev pub contexts : List (HookResult Json) → List Text
  contexts [] = []
  contexts (r ∷ rs) = context_of r.hook_specific_output ++ contexts rs

  -- The patch of the last hook that proposes one.
  abbrev pub last_patch : List (HookResult Json) → Option Json
  last_patch [] = none
  last_patch (r ∷ rs) = or_else (last_patch rs) (patch_of r.hook_specific_output)

  or_else_assoc : (a b c : Option Json) → or_else a (or_else b c) ≡ or_else (or_else a b) c
  or_else_assoc a b c = ground arith

  or_else-none : (a : Option Json) → or_else a none ≡ a
  or_else-none none = refl
  or_else-none (some x) = refl

  blocking-add :
      (o : Option (PostStageOutput Json)) (r : HookResult Json) (agg : AggregatedHookResult Json)
      → (add_output o (add_reason r agg)).blocking_errors
        ≡ agg.blocking_errors ++ (if is_block r.decision then non_empty r.reason else [])
  blocking-add none r agg = ground (arith, append-nil agg.blocking_errors)
  blocking-add (some out) r agg = ground (arith, append-nil agg.blocking_errors)

  contexts-add :
      (o : Option (PostStageOutput Json)) (r : HookResult Json) (agg : AggregatedHookResult Json)
      → (add_output o (add_reason r agg)).additional_contexts
        ≡ agg.additional_contexts ++ context_of o
  contexts-add none r agg = ground (arith, append-nil agg.additional_contexts)
  contexts-add (some out) r agg = ground arith

  patch-add :
      (o : Option (PostStageOutput Json)) (r : HookResult Json) (agg : AggregatedHookResult Json)
      → (add_output o (add_reason r agg)).updated_artifact
        ≡ or_else (patch_of o) agg.updated_artifact
  patch-add none r agg = ground arith
  patch-add (some out) r agg = ground arith

  blocking-aggregate_from :
      (rs : List (HookResult Json)) (agg : AggregatedHookResult Json)
      → (aggregate_from rs agg).blocking_errors ≡ agg.blocking_errors ++ reasons rs
  unfolding aggregate_from
  blocking-aggregate_from [] agg = rw append-nil
  blocking-aggregate_from (r ∷ rs) agg =
      blocking-aggregate_from rs (add_output r.hook_specific_output (add_reason r agg))
      ∙ rw (blocking-add r.hook_specific_output r agg, append_assoc)

  contexts-aggregate_from :
      (rs : List (HookResult Json)) (agg : AggregatedHookResult Json)
      → (aggregate_from rs agg).additional_contexts ≡ agg.additional_contexts ++ contexts rs
  unfolding aggregate_from
  contexts-aggregate_from [] agg = rw append-nil
  contexts-aggregate_from (r ∷ rs) agg =
      contexts-aggregate_from rs (add_output r.hook_specific_output (add_reason r agg))
      ∙ rw (contexts-add r.hook_specific_output r agg, append_assoc)

  patch-aggregate_from :
      (rs : List (HookResult Json)) (agg : AggregatedHookResult Json)
      → (aggregate_from rs agg).updated_artifact ≡ or_else (last_patch rs) agg.updated_artifact
  unfolding aggregate_from
  patch-aggregate_from [] agg = refl
  patch-aggregate_from (r ∷ rs) agg =
      patch-aggregate_from rs (add_output r.hook_specific_output (add_reason r agg))
      ∙ rw (patch-add r.hook_specific_output r agg)
          (or_else_assoc (last_patch rs) (patch_of r.hook_specific_output) agg.updated_artifact)

  -- `aggregate` collects the reasons of the blocking hooks and the stripped contexts, both in the
  -- order of the hooks, and keeps the last patch that a hook proposed.
  pub aggregate_lem :
      (results : List (HookResult Json))
      → ((aggregate results).blocking_errors ≡ reasons results)
        × ((aggregate results).additional_contexts ≡ contexts results)
        × ((aggregate results).updated_artifact ≡ last_patch results)
  unfolding aggregate
  aggregate_lem results = (
    blocking-aggregate_from results _,
    contexts-aggregate_from results _,
    patch-aggregate_from results _ ∙ or_else-none (last_patch results),
  )
