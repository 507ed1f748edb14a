-- ===== src/Editor/Args.antt =====
-- The arguments of a tool call: the JSON object of the model's directive. Of a number that is no
-- integer, a list or an object, a value has what `bool`, `repr` and `int` say of it.
use mathodology.Prelude.{
  ℕ, zero, suc, ◌+◌, ◌-◌, Bool, true, false, Option, none, some, List, [], ◌∷◌, ◌++◌, ltb, ◌==◌,
  if◌then◌else◌, map,
}
use mathodology.Text.{Text, text, ◌=ₜ◌, truthy, join, decimal}

-- Python's `int`; `negsuc n` is `-(n + 1)`.
pub data ℤ : Type 0 where
  pos : ℕ → ℤ
  negsuc : ℕ → ℤ

pub data Value : Type 0 where
  null : Value
  truth : Bool → Value
  integer : ℤ → Value
  string : Text → Value
  opaque : Bool → Text → Option ℤ → Value

abbrev pub Args : Type 0
Args = List (Text × Value)

-- `args.get(key)`
abbrev pub arg : Text → Args → Value
arg key [] = null
arg key ((k, v) ∷ args) = let rest = arg key args in if k =ₜ key then v else rest

-- `key in args`
abbrev pub has : Text → Args → Bool
has key [] = false
has key ((k, v) ∷ args) = let rest = has key args in if k =ₜ key then true else rest

-- `v if isinstance(v, str) else None`
abbrev pub as_string : Value → Option Text
as_string (string t) = some t
as_string null = none
as_string (truth b) = none
as_string (integer i) = none
as_string (opaque b r i) = none

-- The string, if it is not empty.
abbrev pub non_empty : Option Text → Option Text
non_empty none = none
non_empty (some t) = if truthy t then some t else none

abbrev nonzero : ℤ → Bool
nonzero (pos zero) = false
nonzero (pos (suc n)) = true
nonzero (negsuc n) = true

-- `bool(v)`
abbrev pub truth_of : Value → Bool
truth_of null = false
truth_of (truth b) = b
truth_of (integer i) = nonzero i
truth_of (string t) = truthy t
truth_of (opaque b r i) = b

abbrev pub int_text : ℤ → Text
int_text (pos n) = decimal n
int_text (negsuc n) = text "-" ++ decimal (n + 1)

module _ (repr : Text → Text) where
  -- `repr(v)`, with `repr` that of a string: its escapes depend on the tables of Unicode.
  abbrev pub repr_value : Value → Text
  repr_value null = text "None"
  repr_value (truth true) = text "True"
  repr_value (truth false) = text "False"
  repr_value (integer i) = int_text i
  repr_value (string t) = repr t
  repr_value (opaque b r i) = r

  -- `repr` of a list of strings.
  abbrev pub repr_list : List Text → Text
  repr_list ts = text "[" ++ (join (text ", ") (map repr ts) ++ text "]")

-- An f-string, or strings in a row.
abbrev pub concat : List Text → Text
concat [] = []
concat (t ∷ ts) = t ++ concat ts

-- A character of a JSON string, as `json.dumps` with `ensure_ascii=False` writes it.
abbrev hex_digit : ℕ → ℕ
hex_digit n = if ltb n 10 then 48 + n else 87 + n

abbrev json_char : ℕ → Text
json_char c =
    if c == 34
    then 92 ∷ 34 ∷ []
    else if c == 92
    then 92 ∷ 92 ∷ []
    else if c == 10
    then 92 ∷ 110 ∷ []
    else if c == 13
    then 92 ∷ 114 ∷ []
    else if c == 9
    then 92 ∷ 116 ∷ []
    else if c == 12
    then 92 ∷ 102 ∷ []
    else if c == 8
    then 92 ∷ 98 ∷ []
    else if ltb c 16
    then text "\\u000" ++ hex_digit c ∷ []
    else if ltb c 32
    then text "\\u001" ++ hex_digit (c - 16) ∷ []
    else c ∷ []

-- `json.dumps(t, ensure_ascii=False)`
abbrev pub json_string : Text → Text
json_string t = text "\"" ++ (concat (map json_char t) ++ text "\"")
