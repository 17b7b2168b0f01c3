-- ===== src/Value.antt =====
-- The values of the source's language that arrive as JSON: what `JSON.parse` returns, with
-- `undefined` for a part that is not there. Numbers are the non-negative integers.
use pvpentech_core.Common.{
  ℕ, zero, suc, String, Bool, true, false, List, [], ◌∷◌, Option, str_eq, if◌then◌else◌,
}

mutual
  pub data Value : Type 0 where
    undefined null : Value
    bool : Bool → Value
    num : ℕ → Value
    str : String → Value
    arr : Items → Value
    obj : Fields → Value

  -- The properties of an object, in the order in which they are written.
  pub data Fields : Type 0 where
    field : (name : String) (value : Value) (rest : Fields) → Fields
    end : Fields

  pub data Items : Type 0 where
    cons : (first : Value) (rest : Items) → Items
    nil : Items

abbrev pub items : List Value → Items
items [] = nil
items (v ∷ vs) = cons v (items vs)

-- `array.length`
abbrev pub count_items : Items → ℕ
count_items nil = 0
count_items (cons v vs) = suc (count_items vs)

-- `array[i]`, which is `undefined` out of range.
abbrev pub item : Items → ℕ → Value
item nil i = undefined
item (cons v vs) zero = v
item (cons v vs) (suc i) = item vs i

abbrev pub find_field : Fields → String → Value
find_field end key = undefined
find_field (field name v rest) key = if str_eq name key then v else find_field rest key

-- `value[key]` for a key that names no method or length.
abbrev pub prop : Value → String → Value
prop (obj fields) key = find_field fields key
prop _ key = undefined

-- `value === undefined || value === null`
abbrev pub is_nullish : Value → Bool
is_nullish undefined = true
is_nullish null = true
is_nullish _ = false

-- `value ?? {}`
abbrev pub or_empty : Value → Value
or_empty undefined = obj end
or_empty null = obj end
or_empty v = v

-- The parts of the language that turn values into text and back: `JSON.parse` (`none` when it
-- throws), `JSON.stringify`, and `String(value)` for a value that is no text.
pub record Json : Type 0 where
  pub parse : String → Option Value
  pub stringify : Value → String
  pub show : Value → String

-- `${value}`
abbrev pub to_text : Json → Value → String
to_text js (str s) = s
to_text js v = js.show v
