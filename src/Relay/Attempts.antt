-- ===== src/Relay/Attempts.antt =====
-- One event's turn while the database answers: packages/core/src/outbox/outboxRelay.ts.
use pvpentech_core.Common.{
  ℕ, ◌+◌, ltb, Option, ◌≡◌, inl, inr, String, true, [], ◌∷◌, ◌++◌, none, some, arith, any, change,
  Option-cases, Bool-cases, if◌then◌else◌,
}
use pvpentech_core.Database.Events.{OutboxRow}
use pvpentech_core.Database.Client.{Client, IsClient, IsWorking}
use pvpentech_core.Relay.{
  Broker, Relay, next, max_attempts, mark_published, mark_failed, mark_dead, same_row, set_row,
  bury, fail_event, confirm, process_event,
}

module _ (client : Client) (l : IsClient client) (works : IsWorking client) (broker : Broker)
    (now : ℕ) where
  -- The relay after a change of the event's row.
  abbrev pub with_row : OutboxRow → (OutboxRow → OutboxRow) → Relay → Relay
  with_row ev f s = record s { outbox = change (same_row client broker now ev) f s.outbox }

  set_row-works :
      (ev : OutboxRow) (f : OutboxRow → OutboxRow) (s : Relay)
      → any (same_row client broker now ev) s.outbox ≡ true
      → set_row client broker now ev f s ≡ next (with_row ev f s)
  unfolding set_row
  set_row-works ev f s there =
      elim (Option-cases (client.update (same_row client broker now ev) f s.outbox)) [
        | inl e ↦ absurd (works.updates (same_row client broker now ev) f s.outbox there e)
        | inr ((r, t), e) ↦
            let (old, hit, became, shape) =
              l.update_lem (same_row client broker now ev) f s.outbox t r e in
            ground arith
      ]

  confirm-works :
      (ev : OutboxRow) (s : Relay)
      → any (same_row client broker now ev) s.outbox ≡ true
      → confirm client broker now ev s ≡ next (with_row ev (mark_published client broker now) s)
  unfolding confirm
  confirm-works ev s there =
      elim (Option-cases (
        client.update (same_row client broker now ev) (mark_published client broker now)
          s.outbox)) [
            | inl e ↦ absurd (
                works.updates (same_row client broker now ev) (mark_published client broker now)
                  s.outbox there e)
            | inr ((r, t), e) ↦
                let (old, hit, became, shape) =
                  l.update_lem (same_row client broker now ev) (mark_published client broker now)
                    s.outbox t r e in
                ground arith
          ]

  -- A failed attempt: the row has one attempt more and the reason, and the tenth is its last. It is
  -- marked as published too, so that no tick takes it again; it is among the dead letters only if
  -- these take it.
  abbrev pub after_failure : OutboxRow → String → Relay → Relay
  after_failure ev reason s =
      if ltb (ev.attempts + 1) max_attempts
      then with_row ev (λ r. record r { attempts = ev.attempts + 1; last_error = some reason }) s
      else with_row ev
          (λ r. record r {
            attempts = ev.attempts + 1;
            last_error = some reason;
            published_at = some now;
          })
          (if broker.dead_letter ev then record s { dead = s.dead ++ ev ∷ [] } else s)

  -- An attempt: the stream has grown by the event, whose row is marked as published, or it failed.
  abbrev pub after_attempt : OutboxRow → Option String → Relay → Relay
  after_attempt ev none s =
      with_row ev (λ r. record r { published_at = some now; last_error = none })
        (record s { stream = s.stream ++ ev ∷ [] })
  after_attempt ev (some reason) s = after_failure ev reason s

  fail_event-works :
      (ev : OutboxRow) (reason : String) (s : Relay)
      → any (same_row client broker now ev) s.outbox ≡ true
      → fail_event client broker now ev reason s ≡ next (after_failure ev reason s)
  unfolding fail_event bury
  fail_event-works ev reason s there =
      let failed =
        set_row-works ev (mark_failed client broker now (ev.attempts + 1) reason) s there in
      let f = mark_dead client broker now (ev.attempts + 1) reason in
      elim (Bool-cases (broker.dead_letter ev)) [
        | inl d ↦
            ground (arith, failed, set_row-works ev f (record s { dead = s.dead ++ ev ∷ [] }) there)
        | inr d ↦ ground (arith, failed, set_row-works ev f s there)
      ]

  -- While the database answers, the turn of an event that is in the outbox goes on to the next
  -- event, and leaves what the broker's answer says: the event in the stream and its row marked as
  -- published; or one attempt more and the reason in its row; or, at the tenth attempt, the row
  -- marked as published and the event among the dead letters if these take it.
  pub process_event_lem :
      (ev : OutboxRow) (s : Relay)
      → any (same_row client broker now ev) s.outbox ≡ true
      → process_event client broker now ev s ≡ next (after_attempt ev (broker.publish ev) s)
  unfolding process_event
  process_event_lem ev s there = elim (Option-cases (broker.publish ev)) [
    | inl e ↦ ground (arith, confirm-works ev (record s { stream = s.stream ++ ev ∷ [] }) there)
    | inr (reason, e) ↦ ground (arith, fail_event-works ev reason s there)
  ]
