-- ===== src/Compactor.antt =====
-- compactor.py: threshold-triggered summaries with a circuit breaker. The LLM call is the argument
-- `caller`: it takes the system prompt, the user prompt and the model, and may raise; `none` is a
-- return that is no string. `W` is the state of what it talks to.
pub mod Breaker
pub mod Contract
pub mod Tests
use mathodology.Prelude.{
  ℕ, zero, suc, ◌+◌, Bool, true, false, Option, none, some, List, [], ◌∷◌, ◌++◌, ◌&&◌, ltb, leb,
  if◌then◌else◌, length,
}
use mathodology.Text.{Text, text, strip, join, decimal, newline}
use mathodology.Exec.{Error, Result, ok, err, Exec, class_name, message}

pub record CompactionPolicy : Type 0 where
  pub threshold_chars : ℕ
  pub target_chars : ℕ
  pub min_output_chars : ℕ
  pub max_consecutive_failures : ℕ
  pub keep_recent_chars : ℕ

abbrev pub default_policy : CompactionPolicy
default_policy = record {
  threshold_chars = 24000;
  target_chars = 24000;
  min_output_chars = 800;
  max_consecutive_failures = 3;
  keep_recent_chars = 2000;
}

pub record CompactionResult : Type 0 where
  pub compacted : Text
  pub was_compacted : Bool
  pub original_chars : ℕ
  pub compacted_chars : ℕ
  pub failure_reason : Option Text

-- `Compactor` and its subclass `PaperCompactor`, which overrides the two prompts.
pub data Flavour : Type 0 where
  plain paper : Flavour

pub record Compactor : Type 0 where
  pub flavour : Flavour
  pub model : Text
  pub policy : CompactionPolicy
  pub consecutive_failures : ℕ

-- `Compactor.__init__`, with `policy or CompactionPolicy()`
abbrev pub new : Flavour → Text → Option CompactionPolicy → Compactor
new f m none = record { flavour = f; model = m; policy = default_policy; consecutive_failures = 0 }
new f m (some p) = record { flavour = f; model = m; policy = p; consecutive_failures = 0 }

lines : List Text → Text
lines = join (newline ∷ [])

no_tools_preamble : Text
no_tools_preamble = lines (
    text "CRITICAL: Respond with TEXT ONLY. Do NOT call any tools."
    ∷ text "- You already have all the context you need in the user message."
    ∷ text "- Tool calls will be REJECTED and waste your only turn."
    ∷ text "- Your entire response must be plain text."
    ∷ []
    ∷ []
    ∷ [])

system_prompt : Flavour → Text
system_prompt plain = lines (
    text
      "You are a precise summarizer. Compress the user-provided text while preserving all numbers, equations, named entities, and citations. Do NOT call tools. Return plain text only."
    ∷ [])
system_prompt paper = lines (
    text
      "You compress an academic paper into a high-density summary for downstream LLM citation. Preserve verbatim:"
    ∷ text "- Mathematical formulas (LaTeX or plain)"
    ∷ text "- Parameter definitions and units"
    ∷ text "- Methodology steps in order"
    ∷ text "- Experimental setup (sample size, data source, conditions)"
    ∷ text "- Numerical results with confidence intervals or error bars"
    ∷ text "- Key claims that Writer might cite"
    ∷ []
    ∷ text "Drop entirely:"
    ∷ text "- Boilerplate (acknowledgments, ethics, conflicts of interest)"
    ∷ text "- Related-work prose (the Writer has SearchFindings.papers for that)"
    ∷ text "- Narrative filler (\"In this paper we propose...\")"
    ∷ text "- Reference list (keep DOIs only)"
    ∷ text "- Repeated information"
    ∷ []
    ∷ text "Preserve the source language. If the input is Chinese, output Chinese."
    ∷ text "If English, output English. Do not translate."
    ∷ []
    ∷ text
        "Output: dense markdown, capped at the target character budget. Keep section headings (## Methods, ## Results, etc.) so Writer can grep for them. Respond with the compacted markdown only."
    ∷ [])

full_system_prompt : Compactor → Text
full_system_prompt c = no_tools_preamble ++ system_prompt c.flavour

user_prompt : Flavour → ℕ → Text → Text
user_prompt plain target t =
    text "Compress the following to at most ~"
    ++ decimal target
    ++ text " characters. Preserve all specific numbers and equations."
    ++ newline ∷ newline ∷ t
user_prompt paper target t =
    text "Compact this paper text into ~"
    ++ decimal target
    ++ text " characters of dense markdown, preserving the source language verbatim"
    ++ text " and keeping all numerical results, methods detail, and DOIs."
    ++ newline ∷ newline ∷ text "Raw paper text:"
    ++ newline ∷ newline ∷ t

build_user_prompt : Compactor → Text → Text
build_user_prompt c t = user_prompt c.flavour c.policy.target_chars t

pub should_compact : Compactor → Text → Bool
should_compact c t =
    ltb c.policy.threshold_chars (length t)
    && ltb c.consecutive_failures c.policy.max_consecutive_failures

abbrev pub unchanged : Text → Text → CompactionResult
unchanged t reason = record {
  compacted = t;
  was_compacted = false;
  original_chars = length t;
  compacted_chars = length t;
  failure_reason = some reason;
}

abbrev pub summarized : Text → Text → CompactionResult
summarized t summary = record {
  compacted = summary;
  was_compacted = true;
  original_chars = length t;
  compacted_chars = length summary;
  failure_reason = none;
}

abbrev pub failed : Compactor → Compactor
failed c = record c { consecutive_failures = c.consecutive_failures + 1 }

abbrev pub reset : Compactor → Compactor
reset c = record c { consecutive_failures = 0 }

-- `if not isinstance(summary, str): summary = ""`, then `strip`
abbrev pub normalized : Option Text → Text
normalized none = strip []
normalized (some t) = strip t

-- What `compact` does once the call has returned or raised.
abbrev pub accept : Compactor → Text → Text → CompactionResult × Compactor
accept c t summary =
    if ltb (length summary) c.policy.min_output_chars
    then (unchanged t (text "output_too_short"), failed c)
    else if leb (length t) (length summary)
    then (unchanged t (text "no_compression_achieved"), failed c)
    else (summarized t summary, reset c)

abbrev pub conclude : Compactor → Text → Result (Option Text) → CompactionResult × Compactor
conclude c t (err e) =
    (unchanged t (text "llm_error: " ++ class_name e ++ text ": " ++ message e), failed c)
conclude c t (ok reply) = accept c t (normalized reply)

abbrev pub skipped : Compactor → Text → CompactionResult
skipped c t = unchanged t (
    if leb (length t) c.policy.threshold_chars
    then text "below_threshold"
    else text "circuit_breaker_tripped")

module _ {W : Type 0} (caller : Text → Text → Text → Exec W (Option Text)) where
  call : Compactor → Text → Exec W (Option Text)
  call c t = caller (full_system_prompt c) (build_user_prompt c t) c.model

  -- `Compactor.compact`: it never raises.
  pub compact : Text → Compactor → W → CompactionResult × Compactor × W
  compact t c w =
      if should_compact c t
      then (let (r, w') = call c t w in let (result, c') = conclude c t r in (result, c', w'))
      else (skipped c t, c, w)

  -- A session: the texts of one compactor, one after the other.
  pub compact_all : List Text → Compactor → W → List CompactionResult × Compactor × W
  compact_all [] c w = ([], c, w)
  compact_all (t ∷ ts) c w =
      let (result, c', w') = compact t c w in
      let (results, c'', w'') = compact_all ts c' w' in (result ∷ results, c'', w'')
