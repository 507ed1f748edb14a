-- ===== src/Compactor/Breaker.antt =====
-- compactor.py: the circuit breaker over a session of texts.
use mathodology.Prelude.{◌≤◌, ◌≡◌, refl, inl, inr, false, Option, List, [], ◌∷◌, arith, Bool-cases}
use mathodology.Text.{Text}
use mathodology.Exec.{Result, ok, err, Exec}
use mathodology.Compactor.{
  Compactor, CompactionResult, should_compact, conclude, call, compact, compact_all, skipped,
}
use mathodology.Compactor.Contract.{compact_outcome}

-- The count of consecutive failures never passes the limit of the policy.
abbrev pub IsBounded : Compactor → Type 0
IsBounded c = c.consecutive_failures ≤ c.policy.max_consecutive_failures

-- The breaker has tripped.
abbrev pub IsTripped : Compactor → Type 0
IsTripped c = c.policy.max_consecutive_failures ≤ c.consecutive_failures

-- A result that hands its text back.
abbrev pub HandsBack : Text → CompactionResult → Type 0
HandsBack t r = (r.was_compacted ≡ false) × (r.compacted ≡ t)

-- Every text of a session comes back as it was.
abbrev pub AllHandBack : List Text → List CompactionResult → Type 0
AllHandBack [] [] = Unit
AllHandBack (t ∷ ts) (r ∷ rs) = HandsBack t r × AllHandBack ts rs
AllHandBack _ _ = ⊥

policy-conclude :
    (c : Compactor) (t : Text) (reply : Result (Option Text))
    → (conclude c t reply).1.policy ≡ c.policy
policy-conclude c t (err e) = refl
policy-conclude c t (ok reply) = ground arith

module _ {W : Type 0} (caller : Text → Text → Text → Exec W (Option Text)) where
  policy-compact : (t : Text) (c : Compactor) (w : W) → (compact caller t c w).1.policy ≡ c.policy
  unfolding compact
  policy-compact t c w = elim (Bool-cases (should_compact c t)) [
    | inl fires ↦ rw fires (policy-conclude c t (call caller c t w).0)
    | inr idle ↦ rw idle
  ]

  compact-IsBounded :
      (t : Text) (c : Compactor) (w : W) → IsBounded c → IsBounded (compact caller t c w).1
  compact-IsBounded t c w h = elim (compact_outcome c t caller w) [
    | inl s ↦ rw (policy-compact t c w) (omega (arith, s.reset_count))
    | inr (inl f) ↦ rw (policy-compact t c w) (omega (arith, f.counted, f.armed))
    | inr (inr (k, same)) ↦ rw k.untouched h
  ]

  -- From a count within the limit, the count stays within it over every session.
  pub compact_all-IsBounded :
      (ts : List Text) (c : Compactor) (w : W)
      → IsBounded c
      → IsBounded (compact_all caller ts c w).1
  unfolding compact_all
  compact_all-IsBounded [] c w h = h
  compact_all-IsBounded (t ∷ ts) c w h =
      compact_all-IsBounded ts (compact caller t c w).1 (compact caller t c w).2
        (compact-IsBounded t c w h)

  compact_tripped :
      (t : Text) (c : Compactor) (w : W) → IsTripped c → compact caller t c w ≡ (skipped c t, c, w)
  unfolding compact should_compact
  compact_tripped t c w h = ground arith

  -- Once the breaker has tripped it stays so for every later text: no call is made (what the LLM
  -- would have answered is not asked for), the count is never reset, and every text comes back.
  pub breaker_stays_tripped :
      (ts : List Text) (c : Compactor) (w : W)
      → IsTripped c
      → let (rs, c', w') = compact_all caller ts c w in AllHandBack ts rs × (c' ≡ c) × (w' ≡ w)
  unfolding compact_all
  breaker_stays_tripped [] c w h = (tt, refl, refl)
  breaker_stays_tripped (t ∷ ts) c w h = rw (compact_tripped t c w h) (
      let (backs, same, world) = breaker_stays_tripped ts c w h in
      (((refl, refl), backs), same, world))
