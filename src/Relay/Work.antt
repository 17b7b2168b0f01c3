-- ===== src/Relay/Work.antt =====
-- The attempts that the relay still owes to the events of the outbox.
use pvpentech_core.Common.{
  ℕ, ◌+◌, ◌-◌, ◌≡◌, inl, inr, refl, Bool, true, false, List, [], ◌∷◌, arith, any, map, ◌==◌,
  if◌then◌else◌,
}
use pvpentech_core.Database.Events.{OutboxRow}
use pvpentech_core.Database.Client.{Finds}
use pvpentech_core.Relay.{max_attempts, is_waiting}

-- The attempts that are left to an event that waits.
unfoldable pub cost : OutboxRow → ℕ
cost r = if is_waiting r then max_attempts - r.attempts else 0

unfoldable pub remaining : List OutboxRow → ℕ
remaining [] = 0
remaining (x ∷ xs) = cost x + remaining xs

abbrev pub ids : List OutboxRow → List ℕ
ids t = map (λ r. r.id) t

-- An id that stands in the list.
unfoldable pub contains : ℕ → List ℕ → Bool
contains n [] = false
contains n (m ∷ ms) = let rest = contains n ms in if m == n then true else rest

-- No id stands twice.
unfoldable pub distinct : List ℕ → Bool
unfolding contains
distinct [] = true
distinct (m ∷ ms) = let rest = distinct ms in if contains m ms then false else rest

pub remaining_none : (t : List OutboxRow) → remaining t ≡ 0 → any is_waiting t ≡ false
unfolding remaining cost
remaining_none [] h = refl
remaining_none (x ∷ xs) h = ground (arith, remaining_none xs)

pub none_remaining : (t : List OutboxRow) → any is_waiting t ≡ false → remaining t ≡ 0
unfolding remaining cost
none_remaining [] h = refl
none_remaining (x ∷ xs) h = ground (arith, none_remaining xs)

-- The attempts of the first row with an id.
pub attempts_of : ℕ → List OutboxRow → ℕ
attempts_of n [] = 0
attempts_of n (x ∷ xs) = let rest = attempts_of n xs in if x.id == n then x.attempts else rest

pub contains-Finds :
    (p : OutboxRow → Bool) (r : OutboxRow) (t : List OutboxRow)
    → Finds p r t
    → contains r.id (ids t) ≡ true
unfolding contains
contains-Finds p r [] h = elim h [ ]
contains-Finds p r (x ∷ xs) (inl h) = rw h.0 (ground arith)
contains-Finds p r (x ∷ xs) (inr h) = ground (arith, contains-Finds p r xs h)

pub attempts_of-Finds :
    (p : OutboxRow → Bool) (r : OutboxRow) (t : List OutboxRow)
    → distinct (ids t) ≡ true
    → Finds p r t
    → attempts_of r.id t ≡ r.attempts
unfolding attempts_of distinct
attempts_of-Finds p r [] d h = elim h [ ]
attempts_of-Finds p r (x ∷ xs) d (inl h) = rw h.0 (ground arith)
attempts_of-Finds p r (x ∷ xs) d (inr h) =
    ground (arith, contains-Finds p r xs h, attempts_of-Finds p r xs (ground arith) h)

pub any-contains :
    (ev : OutboxRow) (t : List OutboxRow) → any (λ r. r.id == ev.id) t ≡ contains ev.id (ids t)
unfolding contains
any-contains ev [] = refl
any-contains ev (x ∷ xs) = ground (arith, any-contains ev xs)
