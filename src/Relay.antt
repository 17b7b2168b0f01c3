-- ===== src/Relay.antt =====
-- packages/core/src/outbox/outboxRelay.ts and streamPublisher.ts: the events of the outbox are
-- published to a stream, or given up after ten attempts.
pub mod Laws
pub mod Attempts
pub mod Work
pub mod Drain
use pvpentech_core.Common.{
  ℕ, suc, ◌+◌, String, Bool, true, false, ◌&&◌, not, List, [], ◌∷◌, ◌++◌, Option, none, some, ◌==◌,
  ltb, leb, is_some, if◌then◌else◌,
}
use pvpentech_core.Database.Events.{OutboxRow}
use pvpentech_core.Database.Client.{Client}

abbrev pub max_attempts : ℕ
max_attempts = 10

abbrev pub batch_size : ℕ
batch_size = 100

-- Redis, which is not in the repository: `xadd` on the stream answers with the message of its
-- error, `xadd` on the dead-letter stream whether it was taken. `page` is the query of one tick, for
-- at most `batch_size` rows in the order of their ids.
pub record Broker : Type 0 where
  pub publish : OutboxRow → Option String
  pub dead_letter : OutboxRow → Bool
  pub page : (OutboxRow → Bool) → ℕ → List OutboxRow → Option (List OutboxRow)
  pub update_error : String

pub record Relay : Type 0 where
  pub running : Bool
  pub outbox : List OutboxRow
  pub stream : List OutboxRow
  pub dead : List OutboxRow

-- The body of the loop goes on, or an error leaves it.
pub data Step : Type 0 where
  next : Relay → Step
  abort : Relay → Step

abbrev pub state_of : Step → Relay
state_of (next s) = s
state_of (abort s) = s

-- `where: { publishedAt: null, attempts: { lt: MAX_ATTEMPTS } }`
abbrev pub is_waiting : OutboxRow → Bool
is_waiting r = not (is_some r.published_at) && ltb r.attempts max_attempts

module _ (client : Client) (broker : Broker) (now : ℕ) where
  abbrev pub mark_published : OutboxRow → OutboxRow
  mark_published r = record r { published_at = some now; last_error = none }

  abbrev pub mark_failed : ℕ → String → OutboxRow → OutboxRow
  mark_failed attempts reason r = record r { attempts = attempts; last_error = some reason }

  abbrev pub mark_dead : ℕ → String → OutboxRow → OutboxRow
  mark_dead attempts reason r = record r {
    attempts = attempts;
    last_error = some reason;
    published_at = some now;
  }

  abbrev pub same_row : OutboxRow → OutboxRow → Bool
  same_row ev r = r.id == ev.id

  -- `prisma.outboxEvent.update`, whose error leaves the loop.
  pub set_row : OutboxRow → (OutboxRow → OutboxRow) → Relay → Step
  set_row ev f s = elim (client.update (same_row ev) f s.outbox) [
    | none ↦ abort s
    | some (_, t) ↦ next (record s { outbox = t })
  ]

  -- `moveToDeadLetter`, whose error is only logged.
  pub bury : OutboxRow → Relay → Relay
  bury ev s = if broker.dead_letter ev then record s { dead = s.dead ++ ev ∷ [] } else s

  -- The `catch` of the loop's body.
  pub fail_event : OutboxRow → String → Relay → Step
  unfolding bury
  fail_event ev reason s =
      if leb max_attempts (ev.attempts + 1)
      then set_row ev (mark_dead (ev.attempts + 1) reason) (bury ev s)
      else set_row ev (mark_failed (ev.attempts + 1) reason) s

  -- The update after a publication; its error counts as a failed attempt.
  pub confirm : OutboxRow → Relay → Step
  unfolding fail_event
  confirm ev s = elim (client.update (same_row ev) mark_published s.outbox) [
    | none ↦ fail_event ev broker.update_error s
    | some (_, t) ↦ next (record s { outbox = t })
  ]

  -- The body of the loop.
  pub process_event : OutboxRow → Relay → Step
  unfolding confirm fail_event
  process_event ev s = elim (broker.publish ev) [
    | none ↦ confirm ev (record s { stream = s.stream ++ ev ∷ [] })
    | some reason ↦ fail_event ev reason s
  ]

  abbrev pub and_then : Step → (Relay → Step) → Step
  and_then (next s) f = f s
  and_then (abort s) f = abort s

  pub process_all : List OutboxRow → Relay → Step
  process_all [] s = next s
  process_all (ev ∷ evs) s = and_then (process_event ev s) (process_all evs)

  pub run_page : Option (List OutboxRow) → Relay → Relay
  run_page none s = s
  run_page (some pending) s = state_of (process_all pending s)

  -- The `try` of a tick, and its `finally`.
  pub run_tick : Relay → Relay
  unfolding run_page
  run_tick s =
      record (run_page (broker.page is_waiting batch_size s.outbox) (record s { running = true })) {
        running = false;
      }

  -- A tick that finds another one running does nothing.
  pub tick : Relay → Relay
  unfolding run_tick
  tick s = if s.running then s else run_tick s
