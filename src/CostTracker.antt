-- ===== src/CostTracker.antt =====
-- cost_tracker.py: reads the running cost total that the gateway keeps in Redis. `W` is the state of
-- Redis, `get` its GET, and `parse_float` Python's `float` of a text (`none` is a `ValueError`).
pub mod Tests
use mathodology.Prelude.{ℕ, Option, none, some, List, [], ◌∷◌, ◌++◌, ltb, if◌then◌else◌, map}
use mathodology.Text.{Text, text}
use mathodology.Exec.{Error, Result, ok, err, Exec}
use mathodology.Float.{Float}

-- redis-py returns bytes or str, by `decode_responses`.
pub data RedisValue : Type 0 where
  bytes : List ℕ → RedisValue
  str : Text → RedisValue

-- `val.decode("ascii", errors="replace")`
abbrev pub decoded : RedisValue → Text
decoded (bytes bs) = map (λ b. if ltb b 128 then b else 0xfffd) bs
decoded (str t) = t

abbrev pub cost_key : Text → Text
cost_key run_id = text "mm:cost:" ++ run_id

pub record RunCostTracker (Num : Type 0) : Type 0 where
  pub run_id : Text
  pub baseline : Num

module _ {Num : Type 0} ⦃fl : Float Num⦄ where
  -- `RunCostTracker.__init__`
  pub start : Text → RunCostTracker Num
  start run_id = record { run_id = run_id; baseline = fl.hundredths 0 }

  abbrev pub or_zero : Option Num → Num
  or_zero none = fl.hundredths 0
  or_zero (some x) = x

  abbrev pub total_of : (Text → Option Num) → Result (Option RedisValue) → Num
  total_of parse_float (err e) = fl.hundredths 0
  total_of parse_float (ok none) = fl.hundredths 0
  total_of parse_float (ok (some v)) = or_zero (parse_float (decoded v))

  module _ {W : Type 0} (get : Text → Exec W (Option RedisValue))
      (parse_float : Text → Option Num) where
    -- It never raises.
    unfoldable pub get_total : RunCostTracker Num → W → Num × W
    get_total t w = let (r, w') = get (cost_key t.run_id) w in (total_of parse_float r, w')

    unfoldable pub snapshot_baseline : RunCostTracker Num → W → RunCostTracker Num × W
    unfolding get_total
    snapshot_baseline t w = let (total, w') = get_total t w in (record t { baseline = total }, w')

    unfoldable pub delta_since_baseline : RunCostTracker Num → W → Num × W
    unfolding get_total
    delta_since_baseline t w = let (total, w') = get_total t w in (fl.sub total t.baseline, w')
