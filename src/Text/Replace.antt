-- ===== src/Text/Replace.antt =====
-- Python's `str.count`, `str.find`, `str.replace` and slices, for a text `old` that is not empty.
pub mod Laws
use mathodology.Prelude.{
  ℕ, zero, suc, ◌+◌, ◌-◌, Option, none, some, List, [], ◌∷◌, ◌++◌, Bool, true, false, length, take,
  drop, if◌then◌else◌,
}
use mathodology.Text.{Text}
use mathodology.Text.Match.{after_prefix, is_some}

-- Whether `old` stands at the beginning of `t`.
abbrev pub starts : Text → Text → Bool
starts old t = is_some (after_prefix old t)

-- The characters of a match that are left once its first is read.
abbrev pub tail_length : Text → ℕ
tail_length [] = 0
tail_length (c ∷ old) = length old

-- The occurrences from left to right that do not overlap, with the characters of the last one that
-- are still to be skipped.
unfoldable pub count_from : Text → ℕ → Text → ℕ
count_from old skip [] = 0
count_from old (suc k) (c ∷ t) = count_from old k t
count_from old zero (c ∷ t) =
    let found = count_from old (tail_length old) t in
    let passed = count_from old zero t in if starts old (c ∷ t) then suc found else passed

-- `t.count(old)`
unfoldable pub occurrences : Text → Text → ℕ
occurrences old t = count_from old 0 t

unfoldable pub replace_from : Text → Text → ℕ → Text → Text
replace_from old new skip [] = []
replace_from old new (suc k) (c ∷ t) = replace_from old new k t
replace_from old new zero (c ∷ t) =
    let found = replace_from old new (tail_length old) t in
    let passed = replace_from old new zero t in
    if starts old (c ∷ t) then new ++ found else c ∷ passed

-- `t.replace(old, new)`
unfoldable pub replace : Text → Text → Text → Text
replace old new t = replace_from old new 0 t

-- `t.find(old)` for a text that has an occurrence; the length of `t` for one that has none.
unfoldable pub find : Text → Text → ℕ
find old [] = 0
find old (c ∷ t) = let rest = find old t in if starts old (c ∷ t) then 0 else suc rest

-- `t[:i] + new + t[i + len(old):]`
unfoldable pub splice : ℕ → Text → Text → Text → Text
splice i old new t = take i t ++ (new ++ drop (i + length old) t)
