-- ===== src/Pipeline/State.antt =====
-- pipeline.py: the state of one run, as its functions share it. `W` is everything outside the worker
-- (Redis, the gateway, the models, the disk); `calls` records, newest first, what the run asked of
-- its collaborators, so that a theorem can speak of it.
use mathodology.Prelude.{◌≡◌, arith, ℕ, Option, List, [], ◌∷◌, if◌then◌else◌}
use mathodology.Text.{Text}
use mathodology.Exec.{Result, ok, err, Exec}
use mathodology.Float.{Float}
use mathodology.Contracts.{Stage}
use mathodology.Events.{AgentName, EventKind, Payload, Outside, EventEmitter, emit}
use mathodology.CostTracker.{
  RedisValue, RunCostTracker, snapshot_baseline, delta_since_baseline, get_total,
}
use mathodology.Cancellation.{check_or_raise}
use mathodology.Pipeline.Policy.{same_stage, same_stage_refl, get_or}

pub data Call (Num : Type 0) : Type 0 where
  -- an event, and the poll of the cancel flag
  emitted : EventKind → Payload → Option AgentName → Call Num
  polled : Call Num
  -- the agent of a stage is run
  ran : Stage → Call Num
  -- the Critic reviews, in a round
  reviewed : Stage → ℕ → Call Num
  -- the producer revises, in a round, when that much had been spent
  revised : Stage → ℕ → Num → Call Num
  -- the audit sends the paper back to the Writer
  bounced : Call Num
  -- a file of the run's directory is written, and the gateway is asked for the PDF
  wrote : Text → Call Num
  exported : Call Num

abbrev pub Reminders : Type 0
Reminders = List (Stage × Text)

-- `reminders[stage] = t`
pub insert : Stage → Text → Reminders → Reminders
insert stage t [] = (stage, t) ∷ []
insert stage t ((s, u) ∷ rest) =
    if same_stage stage s then (s, t) ∷ rest else (s, u) ∷ insert stage t rest

-- `reminders.get(stage, "")`
abbrev pub get_reminder : Reminders → Stage → Text
get_reminder reminders stage = get_or reminders stage []

pub get_reminder-insert :
    (stage : Stage) (t : Text) (rs : Reminders) → get_reminder (insert stage t rs) stage ≡ t
unfolding insert
get_reminder-insert stage t [] = ground (arith, same_stage_refl stage)
get_reminder-insert stage t ((s, u) ∷ rest) =
    ground (arith, same_stage_refl stage, get_reminder-insert stage t rest)

pub record RunState (Num W : Type 0) : Type 0 where
  pub world : W
  pub emitter : EventEmitter
  pub tracker : RunCostTracker Num
  pub reminders : Reminders
  pub calls : List (Call Num)

-- What the run asks of Redis, the clock and the disk.
pub record Services (Num W : Type 0) : Type 0 where
  pub outside : Outside W
  pub redis_get : Text → Exec W (Option RedisValue)
  pub parse_float : Text → Option Num

abbrev pub drop_value : {A : Type 0} → Result A → Result (Unit {0})
drop_value (ok a) = ok tt
drop_value (err e) = err e

module _ {Num W : Type 0} where
  -- A call of a collaborator, recorded.
  abbrev pub ask : {A : Type 0} → Call Num → Exec W A → Exec (RunState Num W) A
  ask c m s = let (r, w') = m s.world in (r, record s { world = w'; calls = c ∷ s.calls })

  abbrev pub remind : Stage → Text → Exec (RunState Num W) (Unit {0})
  remind stage t s = (ok tt, record s { reminders = insert stage t s.reminders })

module _ {Num W : Type 0} ⦃fl : Float Num⦄ (sv : Services Num W) where
  unfoldable pub emit_event :
      EventKind → Payload → Option AgentName → Exec (RunState Num W) (Unit {0})
  emit_event kind payload agent s =
      let (r, (e', w')) = emit sv.outside kind payload agent (s.emitter, s.world) in
      (
        drop_value r,
        record s { world = w'; emitter = e'; calls = emitted kind payload agent ∷ s.calls },
      )

  -- `cost_tracker.snapshot_baseline()`
  unfoldable pub snapshot : Exec (RunState Num W) (Unit {0})
  snapshot s =
      let (t', w') = snapshot_baseline sv.redis_get sv.parse_float s.tracker s.world in
      (ok tt, record s { world = w'; tracker = t' })

  -- `cost_tracker.delta_since_baseline()`
  unfoldable pub delta : Exec (RunState Num W) Num
  delta s =
      let (d, w') = delta_since_baseline sv.redis_get sv.parse_float s.tracker s.world in
      (ok d, record s { world = w' })

  -- `cost_tracker.get_total()`
  unfoldable pub total : Exec (RunState Num W) Num
  total s =
      let (d, w') = get_total sv.redis_get sv.parse_float s.tracker s.world in
      (ok d, record s { world = w' })

  -- `cancel.check_or_raise()`
  unfoldable pub poll : Exec (RunState Num W) (Unit {0})
  poll s = ask polled (check_or_raise sv.redis_get s.emitter.run_id) s
