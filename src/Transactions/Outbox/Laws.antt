-- ===== src/Transactions/Outbox/Laws.antt =====
-- Writing an event either throws and leaves the state, or adds the one row that tells of it.
use pvpentech_core.Common.{◌≡◌, ◌⊎◌, inl, inr, [], ◌∷◌, ◌++◌, none, arith, Option-cases}
use pvpentech_core.Database.Events.{Event, Aggregate, OutboxRow}
use pvpentech_core.Database.Client.{IsClient}
use pvpentech_core.Database.Monad.{Db, Context, ok, threw}
use pvpentech_core.Transactions.Outbox.{outbox_row, write_outbox}

-- A row for the relay to publish.
pub record IsWritten (event : Event) (aggregate : Aggregate) (row : OutboxRow) : Type 0 where
  pub tells : row.event ≡ event
  pub of_aggregate : row.aggregate ≡ aggregate
  pub unpublished : row.published_at ≡ none
  pub untried : row.attempts ≡ 0

pub write_outbox-cases :
    (c : Context) (l : IsClient c.client) (event : Event) (aggregate : Aggregate) (s : Db)
    → (write_outbox c event aggregate s ≡ threw s)
      ⊎ ((row : OutboxRow) × IsWritten event aggregate row
          × (write_outbox c event aggregate s
              ≡ ok (c.uuid s.outbox) (record s { outbox = s.outbox ++ row ∷ [] })))
unfolding write_outbox
write_outbox-cases c l event aggregate s =
    elim (Option-cases (c.client.create (λ r. r.id) (outbox_row c s event aggregate) s.outbox)) [
      | inl e ↦ inl (ground arith)
      | inr ((row, t), e) ↦
          let (n, built, grown) =
            l.create_lem (λ r. r.id) (outbox_row c s event aggregate) s.outbox t row e in
          inr (row, ground arith, ground arith)
    ]
