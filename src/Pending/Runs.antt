-- ===== src/Pending/Runs.antt =====
-- Any run of calls of packages/core/src/ocpp/pendingRequests.ts, and of its timers.
pub mod Counts
use Prim.Native.String.{◌++◌}
use pvpentech_core.Common.{
  ℕ, suc, ◌+◌, ◌≡◌, ◌≤◌, inl, inr, refl, subst, String, Bool, true, false, not, ◌&&◌, List, [], ◌∷◌,
  Option, none, some, arith, str_eq, ltb, ◌==◌, keep, lookup, remove, insert, Option-cases,
  if◌then◌else◌,
}
use pvpentech_core.Pending.{Pending, Outcome, Settled, wait_for, settle, expire, settle_found}
use Counts.{
  times, is_entry, is_of, drop_entry, times-remove, times-insert, times-lookup, times-drop,
  times-split,
}

-- The module's state with what surrounds it: the timers that are set, with the message id and the
-- promise of each, the promises that were settled, and the number of the next promise.
pub record Desk : Type 0 where
  pub pending : Pending
  pub timers : List (String × ℕ)
  pub settled : List (ℕ × Outcome)
  pub next : ℕ

abbrev pub empty_desk : Desk
empty_desk = record { pending = []; timers = []; settled = []; next = 0 }

-- `waitFor`
pub ask : String → Desk → Desk
ask message_id d = record {
  pending = wait_for message_id d.next d.pending;
  timers = (message_id, d.next) ∷ d.timers;
  settled = d.settled;
  next = d.next + 1;
}

abbrev settle_at : String → Pending × Settled → Desk → Desk
settle_at message_id (m, none) d = record d { pending = m }
settle_at message_id (m, some (promise, outcome)) d = record d {
  pending = m;
  timers = drop_entry message_id promise d.timers;
  settled = (promise, outcome) ∷ d.settled;
}

-- `resolve` and `reject`, which clear the timer of the promise that they settle.
pub answer : String → Outcome → Desk → Desk
answer message_id outcome d = settle_at message_id (settle message_id outcome d.pending) d

-- The callback of a timer, which goes off once.
pub ring : String → ℕ → Desk → Desk
ring message_id promise d =
    settle_at message_id
      (expire message_id promise ("OCPP response timeout for messageId: " ++ message_id) d.pending)
      d

-- Whatever comes next: a request, an answer to any message id, or a timer that is set.
pub data Step : Desk → Desk → Type 0 where
  asks : (message_id : String) (d : Desk) → Step d (ask message_id d)
  answers :
      (message_id : String) (outcome : Outcome) (d : Desk) → Step d (answer message_id outcome d)
  rings :
      (message_id : String) (promise : ℕ) (d : Desk)
      → 1 ≤ times (is_entry message_id promise) d.timers
      → Step d (ring message_id promise d)

pub data Reach : Desk → Type 0 where
  start : Reach empty_desk
  later : {d e : Desk} → Reach d → Step d e → Reach e

abbrev pub is_settled : ℕ → ℕ × Outcome → Bool
is_settled promise x = x.0 == promise

-- A promise that was given has a timer or was settled, and only one of them, and only once; a
-- promise that waits for its answer has its timer.
record IsKept (d : Desk) : Type 0 where
  pub counted :
      (promise : ℕ)
      → times (is_of promise) d.timers + times (is_settled promise) d.settled
        ≡ (if ltb promise d.next then 1 else 0)
  pub timed :
      (message_id : String) (promise : ℕ)
      → times (is_entry message_id promise) d.pending ≤ times (is_entry message_id promise) d.timers

ask-IsKept : (message_id : String) (d : Desk) → IsKept d → IsKept (ask message_id d)
unfolding ask times
ask-IsKept message_id d h = record {
  counted = λ promise. ground (arith, h.counted promise);
  timed = λ other promise.
      ground (arith, h.timed other promise, times-insert message_id other d.next promise d.pending);
}

-- A promise with a timer is settled, and its timer and its message id are dropped.
settle_one-IsKept :
    (message_id : String) (promise : ℕ) (outcome : Outcome) (d : Desk)
    → IsKept d
    → 1 ≤ times (is_entry message_id promise) d.timers
    → IsKept (settle_at message_id (remove message_id d.pending, some (promise, outcome)) d)
unfolding times
settle_one-IsKept message_id promise outcome d h there = record {
  counted = λ p. ground (
    arith,
    h.counted p,
    h.counted promise,
    times-split message_id promise p d.timers,
    times-split message_id promise promise d.timers,
  );
  timed = λ other p. ground (
    arith,
    h.timed other p,
    times-remove message_id other p d.pending,
    times-drop message_id other promise p d.timers,
  );
}

answer-IsKept :
    (message_id : String) (outcome : Outcome) (d : Desk)
    → IsKept d
    → IsKept (answer message_id outcome d)
unfolding answer settle
answer-IsKept message_id outcome d h = elim (Option-cases (lookup message_id d.pending)) [
  | inl e ↦ subst IsKept (ground arith) h
  | inr (promise, e) ↦
      let there : 1 ≤ times (is_entry message_id promise) d.timers =
        omega (arith, times-lookup message_id promise d.pending e, h.timed message_id promise) in
      subst IsKept (ground arith) (settle_one-IsKept message_id promise outcome d h there)
]

Step-IsKept : {d e : Desk} → Step d e → IsKept d → IsKept e
unfolding ring
Step-IsKept (asks message_id d) h = ask-IsKept message_id d h
Step-IsKept (answers message_id outcome d) h = answer-IsKept message_id outcome d h
Step-IsKept (rings message_id promise d there) h = settle_one-IsKept message_id promise _ d h there

Reach-IsKept : {d : Desk} → Reach d → IsKept d
unfolding times
Reach-IsKept start = record {
  counted = λ promise. ground arith;
  timed = λ message_id promise. ground arith;
}
Reach-IsKept (later r step) = Step-IsKept step (Reach-IsKept r)

-- After any run of requests, answers and timers, whatever message ids they use, a promise that was
-- given either has one timer set or was settled exactly once, and not both; any other promise has no
-- timer and was never settled.
pub Reach-once :
    (d : Desk)
    → Reach d
    → (promise : ℕ)
    → times (is_of promise) d.timers + times (is_settled promise) d.settled
      ≡ (if ltb promise d.next then 1 else 0)
Reach-once d r promise = (Reach-IsKept r).counted promise
