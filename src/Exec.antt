-- ===== src/Exec.antt =====
-- Methods that change state and may raise: Python's exceptions over a state that survives them.
-- The exception classes of agents/base.py and cancellation.py, and those of the libraries.
use mathodology.Prelude.{Bool, true, false}
use mathodology.Text.{Text, text}

-- `RunCancelled` and `AgentParseError` are subclasses of `AgentError`; `other` stands for every
-- exception outside that hierarchy (Redis, HTTP, the file system), with its class and message.
pub data Error : Type 0 where
  agent_error : Text → Error
  agent_parse_error : Text → Error
  run_cancelled : Text → Error
  other : Text → Text → Error

-- `except AgentError`
abbrev pub is_agent_error : Error → Bool
is_agent_error (other c m) = false
is_agent_error (agent_error m) = true
is_agent_error (agent_parse_error m) = true
is_agent_error (run_cancelled m) = true

-- `str(exc)`
abbrev pub message : Error → Text
message (agent_error m) = m
message (agent_parse_error m) = m
message (run_cancelled m) = m
message (other c m) = m

-- `type(exc).__name__`
abbrev pub class_name : Error → Text
class_name (agent_error m) = text "AgentError"
class_name (agent_parse_error m) = text "AgentParseError"
class_name (run_cancelled m) = text "RunCancelled"
class_name (other c m) = c

pub data Result (A : Type 0) : Type 0 where
  ok : A → Result A
  err : Error → Result A

abbrev pub Exec : Type 0 → Type 0 → Type 0
Exec S A = S → Result A × S

module _ {S A : Type 0} where
  abbrev pub pure : A → Exec S A
  pure a s = (ok a, s)

  abbrev pub raise : Error → Exec S A
  raise e s = (err e, s)

  abbrev pub gets : (S → A) → Exec S A
  gets f s = (ok (f s), s)

module _ {S A B : Type 0} where
  abbrev pub continue : (A → Exec S B) → Result A → Exec S B
  continue f (ok a) s = f a s
  continue f (err e) s = (err e, s)

  infixl 5 ◌>>=◌ ◌>>◌
  abbrev pub ◌>>=◌ : Exec S A → (A → Exec S B) → Exec S B
  ◌>>=◌ m f s = let (r, s') = m s in continue f r s'

  abbrev pub ◌>>◌ : Exec S A → Exec S B → Exec S B
  m >> k = m >>= λ _. k

-- `try: m except: handler`; the handler sees the state that the failing call left.
module _ {S A : Type 0} where
  abbrev pub recover : (Error → Exec S A) → Result A → Exec S A
  recover h (ok a) s = (ok a, s)
  recover h (err e) s = h e s

  abbrev pub try_except : Exec S A → (Error → Exec S A) → Exec S A
  try_except m h s = let (r, s') = m s in recover h r s'

abbrev pub modify : {S : Type 0} → (S → S) → Exec S (Unit {0})
modify f s = (ok tt, f s)
