-- ===== src/Transactions/Outbox.antt =====
-- packages/core/src/outbox/outboxWriter.ts: an event is kept in the same transaction as the change
-- that it tells of.
pub mod Laws
use pvpentech_core.Common.{ℕ, String, List, [], ◌∷◌, Option, none, some}
use pvpentech_core.Database.Events.{Event, Aggregate, OutboxRow}
use pvpentech_core.Database.Monad.{Db, Context, Run, M, gives, pure, ◌>>=◌, ◌>>◌}

-- The row that `tx.outboxEvent.create` builds from the id that the table assigns; the columns that
-- it does not name have their defaults.
abbrev pub outbox_row : Context → Db → Event → Aggregate → ℕ → OutboxRow
outbox_row c s event aggregate n = record {
  id = n;
  event_id = c.uuid s.outbox;
  event = event;
  aggregate = aggregate;
  occurred_at = c.now;
  published_at = none;
  attempts = 0;
  last_error = none;
}

unfoldable pub write_outbox : Context → Event → Aggregate → M String
write_outbox c event aggregate s =
    (do
      gives (c.client.create (λ r. r.id) (outbox_row c s event aggregate) s.outbox)
          (λ t. record s { outbox = t })
      pure (c.uuid s.outbox))
      s
