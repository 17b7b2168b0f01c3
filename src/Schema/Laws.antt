-- ===== src/Schema/Laws.antt =====
-- What schemaValidator.ts accepts, and which field its error names.
use Prim.Native.String
use pvpentech_core.Common.{
  ◌≡◌, ◌↔◌, ◌++◌, refl, ap, String, false, List, [], ◌∷◌, none, some, arith, All, inl, inr, true,
  Bool-cases,
}
use pvpentech_core.Value.{Value, prop, is_nullish}
use pvpentech_core.Schema.{required_fields, check_fields, validate}

abbrev pub Has : Value → String → Type 0
Has payload name = is_nullish (prop payload name) ≡ false

check_fields_sound :
    (payload : Value) (names : List String)
    → check_fields payload names ≡ none
    → All (Has payload) names
unfolding check_fields
check_fields_sound payload [] h = tt
check_fields_sound payload (name ∷ names) h = ground (arith, check_fields_sound payload names)

check_fields_complete :
    (payload : Value) (names : List String)
    → All (Has payload) names
    → check_fields payload names ≡ none
unfolding check_fields
check_fields_complete payload [] h = refl
check_fields_complete payload (name ∷ names) (p, h) = rw p (check_fields_complete payload names h)

-- A payload is accepted exactly if each field that the table lists for the action is in it and is
-- neither null nor undefined.
pub validate_iff :
    (action : String) (payload : Value)
    → (validate action payload ≡ none) ↔ All (Has payload) (required_fields action)
unfolding validate
validate_iff action payload = (
  check_fields_sound payload (required_fields action),
  check_fields_complete payload (required_fields action),
)

check_fields-first :
    (payload : Value) (names : List String) (e : String)
    → check_fields payload names ≡ some e
    → (seen : List String) × (name : String) × (rest : List String) × (names ≡ seen ++ name ∷ rest)
      × All (Has payload) seen
      × (is_nullish (prop payload name) ≡ true)
      × (e ≡ String.◌++◌ "Missing required field: " name)
unfolding check_fields
check_fields-first payload [] e h = cc
check_fields-first payload (name ∷ names) e h = elim (Bool-cases (is_nullish (prop payload name))) [
  | inl lost ↦ ([], name, names, refl, tt, lost, ground arith)
  | inr there ↦
      let (seen, bad, rest, split, before, lost, text) =
        check_fields-first payload names e (ground arith) in
      (name ∷ seen, bad, rest, ap (λ l. name ∷ l) split, (there, before), lost, text)
]

-- A refusal names the first field of the action's list that is undefined or null: the fields
-- listed before it are all there.
pub validate-first :
    (action : String) (payload : Value) (e : String)
    → validate action payload ≡ some e
    → (seen : List String) × (name : String) × (rest : List String) × (required_fields action
        ≡ seen ++ name ∷ rest)
      × All (Has payload) seen
      × (is_nullish (prop payload name) ≡ true)
      × (e ≡ String.◌++◌ "Missing required field: " name)
unfolding validate
validate-first action payload e h = check_fields-first payload (required_fields action) e h
