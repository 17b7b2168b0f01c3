-- ===== src/Transactions/Start/Opened.antt =====
-- A session that a start has opened, and its event.
use pvpentech_core.Common.{ℕ, ◌≡◌, ◌∙◌, String, [], ◌∷◌, ◌++◌, none}
use pvpentech_core.Database.Rows.{Transaction, active}
use pvpentech_core.Database.Events.{TransactionStarted, transaction_started, OutboxRow}
use pvpentech_core.Database.Client.{IsClient, Finds}
use pvpentech_core.Database.Monad.{Db, Context}
use pvpentech_core.Transactions.Stop.{is_target}
use pvpentech_core.Transactions.Start.{StartPayload}

module _ (c : Context) (l : IsClient c.client) (station : String) (p : StartPayload) where
  -- A session of the answered id is running, a stop of that id from this station finds it, and the
  -- one new row of the outbox tells of it.
  pub record IsOpened (s t : Db) (id : ℕ) : Type 0 where
    pub session : Transaction
    pub row : OutboxRow
    pub event : TransactionStarted
    pub found : Finds (is_target station id) session t.transactions
    pub same_id : session.id ≡ id
    pub is_active : session.status ≡ active
    pub same_meter : session.meter_start ≡ p.meter_start
    pub outbox : t.outbox ≡ s.outbox ++ row ∷ []
    pub tells : row.event ≡ transaction_started event
    pub told_id : event.transaction_id ≡ id
    pub told_meter : event.meter_start ≡ p.meter_start
    pub told_station : event.station_id ≡ station
    pub unpublished : row.published_at ≡ none

  pub IsOpened-keeps :
      {s t u : Db} {id : ℕ}
      → IsOpened s t id
      → u.transactions ≡ t.transactions
      → u.outbox ≡ t.outbox
      → IsOpened s u id
  IsOpened-keeps o same_t same_o = record {
    session = o.session;
    row = o.row;
    event = o.event;
    found = rw same_t o.found;
    same_id = o.same_id;
    is_active = o.is_active;
    same_meter = o.same_meter;
    outbox = same_o ∙ o.outbox;
    tells = o.tells;
    told_id = o.told_id;
    told_meter = o.told_meter;
    told_station = o.told_station;
    unpublished = o.unpublished;
  }
