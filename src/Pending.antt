-- ===== src/Pending.antt =====
-- packages/core/src/ocpp/pendingRequests.ts: the promises of the commands that wait for an answer.
pub mod Runs
use pvpentech_core.Common.{
  ℕ, ◌≡◌, refl, String, List, Option, none, some, str_eq, str_eq_refl, arith, lookup, insert,
  remove, lookup-insert, lookup-remove, if◌then◌else◌,
}
use pvpentech_core.Value.{Value}

-- The promise that each message id waits with; a promise is known by its number.
abbrev pub Pending : Type 0
Pending = List (String × ℕ)

-- What settles a promise.
pub data Outcome : Type 0 where
  fulfilled : Value → Outcome
  failed : String → Outcome

abbrev pub Settled : Type 0
Settled = Option (ℕ × Outcome)

abbrev pub wait_for : String → ℕ → Pending → Pending
wait_for message_id promise m = insert message_id promise m

-- The body of `resolve` and `reject`: only a promise that waits is settled, and its timer cleared.
abbrev pub settle_found : Option ℕ → String → Outcome → Pending → Pending × Settled
settle_found none message_id outcome m = (m, none)
settle_found (some promise) message_id outcome m = (remove message_id m, some (promise, outcome))

unfoldable pub settle : String → Outcome → Pending → Pending × Settled
settle message_id outcome m = settle_found (lookup message_id m) message_id outcome m

abbrev pub resolve : String → Value → Pending → Pending × Settled
resolve message_id payload m = settle message_id (fulfilled payload) m

abbrev pub reject : String → String → Pending → Pending × Settled
reject message_id error m = settle message_id (failed error) m

-- The timer of a promise, when it goes off.
abbrev pub expire : String → ℕ → String → Pending → Pending × Settled
expire message_id promise text m = (remove message_id m, some (promise, failed text))

settle_known :
    (message_id : String) (promise : ℕ) (outcome : Outcome) (m : Pending)
    → lookup message_id m ≡ some promise
    → settle message_id outcome m ≡ (remove message_id m, some (promise, outcome))
unfolding settle
settle_known message_id promise outcome m e = rw e refl

settle_unknown :
    (message_id : String) (outcome : Outcome) (m : Pending)
    → lookup message_id m ≡ none
    → settle message_id outcome m ≡ (m, none)
unfolding settle
settle_unknown message_id outcome m e = rw e refl

lookup-remove-insert :
    (message_id other : String) (promise : ℕ) (m : Pending)
    → lookup other (remove message_id (insert message_id promise m))
      ≡ (if str_eq message_id other then none else lookup other m)
lookup-remove-insert message_id other promise m = ground (
  arith,
  lookup-remove message_id other (insert message_id promise m),
  lookup-insert message_id other promise m,
)

-- Right after a request waits, its first answer settles just its promise, every other message id
-- keeps waiting as before, and a second answer to it settles nothing.
pub settle-wait_for :
    (message_id other : String) (promise : ℕ) (first second : Outcome) (m : Pending)
    → let after = settle message_id first (wait_for message_id promise m) in
      (after.1 ≡ some (promise, first))
      × (lookup other after.0 ≡ (if str_eq message_id other then none else lookup other m))
      × (settle message_id second after.0 ≡ (after.0, none))
settle-wait_for message_id other promise first second m =
    let w = insert message_id promise m in
    let known : lookup message_id w ≡ some promise =
      rw (lookup-insert message_id message_id promise m, str_eq_refl message_id) refl in
    let gone : lookup message_id (remove message_id w) ≡ none =
      rw (lookup-remove-insert message_id message_id promise m, str_eq_refl message_id) refl in
    rw (settle_known message_id promise first w known) (
      refl,
      lookup-remove-insert message_id other promise m,
      settle_unknown message_id second (remove message_id w) gone,
    )
