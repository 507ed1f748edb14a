-- ===== src/Cancellation.antt =====
-- cancellation.py: the cancel flag that the gateway writes, polled between stages. `W` is the state
-- of Redis and `get` its GET, which may raise.
pub mod Tests
use mathodology.Prelude.{
  Bool-cases, inl, inr, ◌≡◌, ◌↔◌, refl, Bool, true, false, Option, none, some, List, [], ◌∷◌, ◌++◌,
  arith, if◌then◌else◌,
}
use mathodology.Text.{Text, text, truthy}
use mathodology.Exec.{Error, run_cancelled, Result, ok, err, Exec}
use mathodology.CostTracker.{RedisValue, bytes, str}

abbrev pub cancel_key : Text → Text
cancel_key run_id = text "mm:cancel:" ++ run_id

-- `bool(val)`; a GET that raises counts as not cancelled.
abbrev pub is_set : Result (Option RedisValue) → Bool
is_set (err e) = false
is_set (ok none) = false
is_set (ok (some (bytes bs))) = truthy bs
is_set (ok (some (str t))) = truthy t

module _ {W : Type 0} (get : Text → Exec W (Option RedisValue)) (run_id : Text) where
  unfoldable pub is_cancelled : W → Bool × W
  is_cancelled w = let (r, w') = get (cancel_key run_id) w in (is_set r, w')

  unfoldable pub check_or_raise : Exec W (Unit {0})
  unfolding is_cancelled
  check_or_raise w =
      let (cancelled, w') = is_cancelled w in
      if cancelled
      then (err (run_cancelled (text "run " ++ run_id ++ text " cancelled by user")), w')
      else (ok tt, w')

  -- The flag as GET answers: a value that is not empty.
  abbrev pub Flagged : Result (Option RedisValue) → Type 0
  Flagged (ok (some (bytes (b ∷ bs)))) = Unit
  Flagged (ok (some (str (c ∷ t)))) = Unit
  Flagged _ = ⊥

  Flagged-result :
      (r : Result (Option RedisValue))
      → (is_set r ≡ true → Flagged r) × (Flagged r → is_set r ≡ true)
  Flagged-result (err e) = (λ h. cc, λ h. absurd h)
  Flagged-result (ok none) = (λ h. cc, λ h. absurd h)
  Flagged-result (ok (some (bytes []))) = (λ h. cc, λ h. absurd h)
  Flagged-result (ok (some (bytes (b ∷ bs)))) = (λ h. tt, λ h. refl)
  Flagged-result (ok (some (str []))) = (λ h. cc, λ h. absurd h)
  Flagged-result (ok (some (str (c ∷ t)))) = (λ h. tt, λ h. refl)

  -- A poll raises `RunCancelled`, with this message, exactly if Redis answers with a value that is
  -- not empty; otherwise, a GET that fails included, it lets the run go on.
  pub check_or_raise_iff :
      (w : W)
      → (((check_or_raise w).0
            ≡ err (run_cancelled (text "run " ++ run_id ++ text " cancelled by user")))
          ↔ Flagged (get (cancel_key run_id) w).0)
        × (((check_or_raise w).0 ≡ ok tt) ↔ (¬ Flagged (get (cancel_key run_id) w).0))
  unfolding check_or_raise
  check_or_raise_iff w =
      let (there, back) = Flagged-result (get (cancel_key run_id) w).0 in
      (
        (λ h. there (ground arith), λ h. rw (back h)),
        (
          λ h f. cc (back f, h),
          λ h. elim (Bool-cases (is_set (get (cancel_key run_id) w).0)) [
            | inl e ↦ absurd (h (there e))
            | inr e ↦ rw e
          ],
        ),
      )
