-- ===== src/Pending/Runs/Counts.antt =====
-- How often an entry stands in a list of message ids and promises.
use mathlib.Core.List.{List, [], ◌∷◌}
use pvpentech_core.Common.{
  ℕ, suc, ◌+◌, ◌≡◌, ◌≤◌, String, Bool, not, ◌&&◌, some, arith, str_eq, str_eq_iff, ◌==◌, keep,
  lookup, remove, insert, if◌then◌else◌,
}

unfoldable pub times {ℓ} : {A : Type ℓ} → (A → Bool) → List A → ℕ
times p [] = 0
times p (x ∷ xs) = let rest = times p xs in if p x then suc rest else rest

abbrev pub is_entry : String → ℕ → String × ℕ → Bool
is_entry message_id promise x = str_eq x.0 message_id && x.1 == promise

abbrev pub is_of : {A : Type 0} → ℕ → A × ℕ → Bool
is_of promise x = x.1 == promise

abbrev pub drop_entry : String → ℕ → List (String × ℕ) → List (String × ℕ)
drop_entry message_id promise xs = keep (λ x. not (is_entry message_id promise x)) xs

pub times-remove :
    (gone message_id : String) (promise : ℕ) (xs : List (String × ℕ))
    → times (is_entry message_id promise) (remove gone xs)
      ≡ (if str_eq gone message_id then 0 else times (is_entry message_id promise) xs)
unfolding times remove
times-remove gone message_id promise [] = ground arith
times-remove gone message_id promise (x ∷ xs) = ground (
  arith,
  times-remove gone message_id promise xs,
  str_eq_iff x.0 gone,
  str_eq_iff gone message_id,
  str_eq_iff x.0 message_id,
)

pub times-insert :
    (new message_id : String) (added promise : ℕ) (xs : List (String × ℕ))
    → times (is_entry message_id promise) (insert new added xs)
      ≤ times (is_entry message_id promise) xs
        + (if str_eq new message_id && added == promise then 1 else 0)
unfolding times insert
times-insert new message_id added promise [] = ground arith
times-insert new message_id added promise (x ∷ xs) =
    ground (arith, times-insert new message_id added promise xs)

pub times-lookup :
    (message_id : String) (promise : ℕ) (xs : List (String × ℕ))
    → lookup message_id xs ≡ some promise
    → 1 ≤ times (is_entry message_id promise) xs
unfolding times lookup
times-lookup message_id promise [] h = absurd (cc)
times-lookup message_id promise (x ∷ xs) h = ground (arith, times-lookup message_id promise xs)

pub times-drop :
    (gone message_id : String) (dropped promise : ℕ) (xs : List (String × ℕ))
    → times (is_entry message_id promise) (drop_entry gone dropped xs) ≡ (
        if str_eq gone message_id && dropped == promise
        then 0
        else times (is_entry message_id promise) xs)
unfolding times
times-drop gone message_id dropped promise [] = ground arith
times-drop gone message_id dropped promise (x ∷ xs) = ground (
  arith,
  times-drop gone message_id dropped promise xs,
  str_eq_iff x.0 gone,
  str_eq_iff gone message_id,
  str_eq_iff x.0 message_id,
)

-- The entries of a promise are those that were dropped and those that were not.
pub times-split :
    (gone : String) (dropped promise : ℕ) (xs : List (String × ℕ))
    → times (is_of promise) (drop_entry gone dropped xs)
        + (if dropped == promise then times (is_entry gone dropped) xs else 0)
      ≡ times (is_of promise) xs
unfolding times
times-split gone dropped promise [] = ground arith
times-split gone dropped promise (x ∷ xs) = ground (arith, times-split gone dropped promise xs)
