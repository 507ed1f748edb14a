-- ===== src/CostTracker/Tests.antt =====
-- Tests of cost_tracker.py, in whole hundredths, on a Redis whose total is the number of calls.
use mathodology.Prelude.{ℕ, zero, suc, ◌≡◌, refl, Option, some, [], ◌∷◌, length}
use mathodology.Text.{Text, text}
use mathodology.Exec.{ok, Exec}
use mathodology.Float.{cents}
use mathodology.CostTracker.{
  RedisValue, str, RunCostTracker, get_total, snapshot_baseline, delta_since_baseline,
}

abbrev pub tally : ℕ → Text
tally zero = []
tally (suc n) = b'1' ∷ tally n

-- The total is written in unary, and the world counts it.
abbrev total_get : Text → Exec ℕ (Option RedisValue)
total_get key w = (ok (some (str (tally w))), w)

abbrev pub read_tally : Text → Option ℕ
read_tally t = some (length t)

abbrev tracker : RunCostTracker ℕ
tracker = record { run_id = text "r"; baseline = 0 }

-- The spend between two readings.
abbrev spent_between : ℕ → ℕ → ℕ
spent_between w w' =
    (delta_since_baseline total_get read_tally (snapshot_baseline total_get read_tally tracker w).0
      w').0

five_more : spent_between 3 8 ≡ 5
unfolding snapshot_baseline delta_since_baseline get_total
five_more = refl
