-- ===== src/Compactor/Contract.antt =====
-- compactor.py: what one call of `compact` returns and does to the failure count, on every branch.
use mathodology.Prelude.{
  ◌+◌, ◌≤◌, ◌<◌, ◌≡◌, refl, ◌⊎◌, inl, inr, true, false, Option, none, some, arith, ltb, leb, length,
  Bool-cases,
}
use mathodology.Text.{Text}
use mathodology.Exec.{Result, ok, err, Exec}
use mathodology.Compactor.{
  Compactor, CompactionResult, should_compact, unchanged, failed, normalized, accept, conclude,
  call, compact,
}

-- A usable summary: long enough, shorter than the text, and the breaker is reset.
pub record Summarizes (c : Compactor) (t : Text) (r : CompactionResult) (c' : Compactor)
    : Type 0 where
  pub flagged : r.was_compacted ≡ true
  pub no_reason : r.failure_reason ≡ none
  pub long_text : c.policy.threshold_chars < length t
  pub long_enough : c.policy.min_output_chars ≤ length r.compacted
  pub shorter : length r.compacted < length t
  pub reset_count : c'.consecutive_failures ≡ 0

-- The text itself, with a reason.
pub record Returns (t : Text) (r : CompactionResult) : Type 0 where
  pub unflagged : r.was_compacted ≡ false
  pub same_text : r.compacted ≡ t
  pub reason : (x : Text) × (r.failure_reason ≡ some x)

-- A failed call: the text, and one more failure.
pub record Fails (c : Compactor) (t : Text) (r : CompactionResult) (c' : Compactor) : Type 0 where
  pub returned : Returns t r
  pub counted : c'.consecutive_failures ≡ c.consecutive_failures + 1
  pub armed : c.consecutive_failures < c.policy.max_consecutive_failures

-- No call: the text, and the compactor as it was.
pub record Skips (c : Compactor) (t : Text) (r : CompactionResult) (c' : Compactor) : Type 0 where
  pub returned : Returns t r
  pub untouched : c' ≡ c

widen : {A B C : Type 0} → A ⊎ B → A ⊎ B ⊎ C
widen (inl a) = inl a
widen (inr b) = inr (inl b)

module _ (c : Compactor) (t : Text) where
  unchanged-Returns : (reason : Text) → Returns t (unchanged t reason)
  unchanged-Returns reason = record { unflagged = refl; same_text = refl; reason = (reason, refl) }

  module _ (fires : should_compact c t ≡ true) where
    failed-Fails : (reason : Text) → Fails c t (unchanged t reason) (failed c)
    unfolding should_compact
    failed-Fails reason = record {
      returned = unchanged-Returns reason;
      counted = refl;
      armed = ground arith;
    }

    accept-outcome :
        (summary : Text) → let (r, c') = accept c t summary in Summarizes c t r c' ⊎ Fails c t r c'
    unfolding should_compact
    accept-outcome summary = elim (Bool-cases (ltb (length summary) c.policy.min_output_chars)) [
      | inl short ↦ rw short (inr (failed-Fails _))
      | inr long ↦ elim (Bool-cases (leb (length t) (length summary))) [
        | inl big ↦ rw (long, big) (inr (failed-Fails _))
        | inr small ↦
            rw (long, small)
              (inl (record {
                flagged = refl;
                no_reason = refl;
                long_text = ground arith;
                long_enough = ground arith;
                shorter = ground arith;
                reset_count = refl;
              }))
      ]
    ]

    conclude-outcome :
        (reply : Result (Option Text))
        → let (r, c') = conclude c t reply in Summarizes c t r c' ⊎ Fails c t r c'
    conclude-outcome (err e) = inr (failed-Fails _)
    conclude-outcome (ok reply) = accept-outcome (normalized reply)

  -- One call of `compact` either summarizes, or fails and counts the failure, or makes no call.
  pub compact_outcome :
      {W : Type 0} (caller : Text → Text → Text → Exec W (Option Text)) (w : W)
      → let (r, c', w') = compact caller t c w in
        Summarizes c t r c' ⊎ Fails c t r c' ⊎ (Skips c t r c' × (w' ≡ w))
  unfolding compact
  compact_outcome caller w = elim (Bool-cases (should_compact c t)) [
    | inl fires ↦ rw fires (widen (conclude-outcome fires (call caller c t w).0))
    | inr idle ↦
        rw idle (inr (inr (record { returned = unchanged-Returns _; untouched = refl }, refl)))
  ]
