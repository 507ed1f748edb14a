-- ===== src/Cancellation/Tests.antt =====
-- Tests of cancellation.py on a Redis that holds one flag.
use mathodology.Prelude.{Bool, true, false, ◌≡◌, ◌↔◌, Option, none, some, [], ◌∷◌, ◌++◌, refl}
use mathodology.Text.{Text, text}
use mathodology.Exec.{run_cancelled, ok, err, Exec}
use mathodology.CostTracker.{RedisValue, bytes}
use mathodology.Cancellation.{cancel_key, check_or_raise, Flagged, check_or_raise_iff}

-- A GET that answers `1` once the flag is written.
abbrev flag_get : Text → Exec Bool (Option RedisValue)
flag_get key true = (ok (some (bytes (b'1' ∷ []))), true)
flag_get key false = (ok none, false)

cancelled_run :
    (check_or_raise flag_get (text "r") true).0
    ≡ err (run_cancelled (text "run r cancelled by user"))
unfolding check_or_raise
cancelled_run = refl

check_or_raise_iff_example :
    (((check_or_raise flag_get (text "r") true).0
        ≡ err (run_cancelled (text "run " ++ text "r" ++ text " cancelled by user")))
      ↔ Flagged flag_get (text "r") (flag_get (cancel_key (text "r")) true).0)
    × (((check_or_raise flag_get (text "r") true).0 ≡ ok tt)
        ↔ (¬ Flagged flag_get (text "r") (flag_get (cancel_key (text "r")) true).0))
check_or_raise_iff_example = check_or_raise_iff flag_get (text "r") true
