-- ===== src/Compactor/Tests.antt =====
-- Tests of compactor.py; the world counts the calls of the model.
use mathodology.Prelude.{ℕ, ◌+◌, ◌≡◌, ◌⊎◌, arith, Option, some, List, [], ◌∷◌}
use mathodology.Text.{Text, text}
use mathodology.Exec.{ok, err, Exec, other}
use mathodology.Compactor.{CompactionPolicy, Compactor, plain, compact, compact_all}
use mathodology.Compactor.Contract.{Summarizes, Fails, Skips, compact_outcome}
use mathodology.Compactor.Breaker.{
  IsBounded, AllHandBack, compact_all-IsBounded, breaker_stays_tripped,
}

abbrev small : CompactionPolicy
small = record {
  threshold_chars = 4;
  target_chars = 4;
  min_output_chars = 1;
  max_consecutive_failures = 2;
  keep_recent_chars = 0;
}

abbrev compactor : ℕ → Compactor
compactor failures = record {
  flavour = plain;
  model = text "m";
  policy = small;
  consecutive_failures = failures;
}

abbrev answers : Text → Text → Text → Exec ℕ (Option Text)
answers system user model w = (ok (some (text " sum ")), w + 1)

abbrev is_down : Text → Text → Text → Exec ℕ (Option Text)
is_down system user model w = (err (other (text "ConnectError") (text "refused")), w + 1)

abbrev texts : List Text
texts = text "first text" ∷ text "abc" ∷ text "second text" ∷ []

compact_outcome_example :
    let (r, c', w') = compact answers (text "first text") (compactor 1) 0 in
    Summarizes (compactor 1) (text "first text") r c'
    ⊎ Fails (compactor 1) (text "first text") r c'
    ⊎ (Skips (compactor 1) (text "first text") r c' × (w' ≡ 0))
compact_outcome_example = compact_outcome (compactor 1) (text "first text") answers 0

compact_all-IsBounded_example : IsBounded (compact_all is_down texts (compactor 0) 0).1
compact_all-IsBounded_example = compact_all-IsBounded is_down texts (compactor 0) 0 (omega arith)

breaker_stays_tripped_example :
    let (rs, c', w') = compact_all answers texts (compactor 2) 0 in
    AllHandBack texts rs × (c' ≡ compactor 2) × (w' ≡ 0)
breaker_stays_tripped_example = breaker_stays_tripped answers texts (compactor 2) 0 (omega arith)
