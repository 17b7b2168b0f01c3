-- ===== src/Transactions/Start.antt =====
-- packages/core/src/ocpp/handlers/startTransaction.handler.ts
pub mod Opened
pub mod Unmatched
pub mod Matched
pub mod Laws
use pvpentech_core.Common.{
  ℕ, String, Bool, true, false, ◌&&◌, List, [], ◌∷◌, Option, none, some, ◌==◌, str_eq,
}
use pvpentech_core.Database.Rows.{
  Station, Connector, charging, Transaction, is_pending, active, Settlement, GoalType,
}
use pvpentech_core.Database.Events.{TransactionStarted, transaction_started, transaction}
use pvpentech_core.Database.Monad.{
  Db, Context, GoalCheck, Run, M, pure, ◌>>=◌, ◌>>◌, transact, ignore, asks, puts, gives,
}
use pvpentech_core.Transactions.Outbox.{write_outbox}

pub record StartPayload : Type 0 where
  pub connector_id : ℕ
  pub id_tag : String
  pub meter_start : ℕ
  pub timestamp : String

-- The response `{ transactionId, idTagInfo: { status } }`.
pub record StartReply : Type 0 where
  pub transaction_id : ℕ
  pub status : String

abbrev pub settlement_snapshot : Settlement
settlement_snapshot = record {
  margin_rate = none;
  settlement_schedule = none;
  settlement_day = none;
  settlement_day_of_week = none;
}

abbrev pub unit_price_vnd : ℕ
unit_price_vnd = 3500

-- `where: { sessionId: p.idTag, stationId, status: 'Pending' }`
abbrev pub is_awaited : String → StartPayload → Transaction → Bool
is_awaited station p t =
    str_eq t.session_id p.id_tag && str_eq t.station_id station && is_pending t.status

abbrev pub has_id : ℕ → Transaction → Bool
has_id n t = t.id == n

abbrev pub is_station : String → Station → Bool
is_station station r = str_eq r.id station

abbrev pub is_connector : String → ℕ → Connector → Bool
is_connector station n r = str_eq r.station_id station && r.connector_id == n

abbrev pub site_of : Option Station → Option ℕ
site_of none = none
site_of (some r) = r.site_id

module _ (c : Context) (station : String) (p : StartPayload) where
  abbrev pub new_transaction : ℕ → Transaction
  new_transaction n = record {
    id = n;
    session_id = c.session_name c.now;
    ocpp_transaction_id = none;
    station_id = station;
    connector_id = p.connector_id;
    id_tag = some p.id_tag;
    goal_type = none;
    goal_value = none;
    status = active;
    meter_start = p.meter_start;
    meter_end = none;
    time_start = c.date p.timestamp;
    time_end = none;
    cost_vnd = none;
    fail_reason = none;
    unit_price_vnd = none;
    settlement = settlement_snapshot;
  }

  find_station : M (Option Station)
  find_station s = asks (c.client.find_first (is_station station) s.stations) s

  find_awaited : M (Option Transaction)
  find_awaited s = asks (c.client.find_first (is_awaited station p) s.transactions) s

  create_transaction : M Transaction
  create_transaction s =
      gives (c.client.create (λ r. r.id) new_transaction s.transactions)
        (λ t. record s { transactions = t }) s

  update_transaction : ℕ → (Transaction → Transaction) → M Transaction
  update_transaction n change s =
      gives (c.client.update (has_id n) change s.transactions) (λ t. record s { transactions = t })
        s

  abbrev started_event : Transaction → Option Station → TransactionStarted
  started_event t site = record {
    transaction_id = t.id;
    session_id = t.session_id;
    station_id = station;
    connector_id = t.connector_id;
    id_tag = t.id_tag;
    meter_start = t.meter_start;
    time_start = t.time_start;
    unit_price_vnd = t.unit_price_vnd;
    settlement = t.settlement;
    site_id = site_of site;
  }

  -- The event of the second `$transaction` is made from the row as it was found and the values
  -- that are written.
  abbrev activated_event : Transaction → Option Station → TransactionStarted
  activated_event t site = record {
    transaction_id = t.id;
    session_id = t.session_id;
    station_id = station;
    connector_id = t.connector_id;
    id_tag = t.id_tag;
    meter_start = p.meter_start;
    time_start = c.date p.timestamp;
    unit_price_vnd = some unit_price_vnd;
    settlement = settlement_snapshot;
    site_id = site_of site;
  }

  -- The body of the first `$transaction`: a start that no pending session awaits.
  pub open_transaction : M Transaction
  unfolding create_transaction update_transaction find_station
  open_transaction = do
    created ← create_transaction
    updated ←
        update_transaction created.id (λ t. record t { ocpp_transaction_id = some created.id })
    site ← find_station
    write_outbox c (transaction_started (started_event updated site)) (transaction updated.id)
    pure updated

  abbrev pub started : Transaction → Transaction → Transaction
  started awaited t = record t {
    ocpp_transaction_id = some awaited.id;
    status = active;
    meter_start = p.meter_start;
    time_start = c.date p.timestamp;
    unit_price_vnd = some unit_price_vnd;
    settlement = settlement_snapshot;
  }

  -- The body of the second `$transaction`.
  pub activate : Transaction → M (Unit {0})
  unfolding update_transaction find_station
  activate awaited = do
    update_transaction awaited.id (started awaited)
    site ← find_station
    write_outbox c (transaction_started (activated_event awaited site)) (transaction awaited.id)
    pure tt

  pub check_goal : Transaction → Option GoalType → Option ℕ → M (Unit {0})
  check_goal t (some kind) (some value) s =
      ignore
        (λ s.
          puts
            (c.enqueue
              (record {
                session_id = t.session_id;
                goal_type = kind;
                goal_value = value;
                unit_price_vnd = unit_price_vnd;
              })
              s.goal_checks)
            (λ jobs. record s { goal_checks = jobs }) s)
        s
  check_goal t _ _ s = pure tt s

  abbrev pub new_connector : Connector
  new_connector = record {
    station_id = station;
    connector_id = p.connector_id;
    current_status = charging;
    error_code = none;
    info = none;
    vendor_id = none;
    vendor_error_code = none;
    status_timestamp = none;
  }

  pub set_charging : M (Unit {0})
  set_charging s =
      puts
        (c.client.upsert (is_connector station p.connector_id)
          (λ r. record r { current_status = charging }) new_connector s.connectors)
        (λ t. record s { connectors = t }) s

  abbrev pub accept : ℕ → StartReply
  accept n = record { transaction_id = n; status = "Accepted" }

  start_unmatched : M StartReply
  unfolding open_transaction
  start_unmatched = do created ← transact open_transaction; pure (accept created.id)

  start_matched : Transaction → M StartReply
  unfolding find_station activate check_goal set_charging
  start_matched awaited = do
    find_station
    transact (activate awaited)
    check_goal awaited awaited.goal_type awaited.goal_value
    ignore set_charging
    pure (accept awaited.id)

  start_found : Option Transaction → M StartReply
  unfolding start_unmatched start_matched
  start_found none = start_unmatched
  start_found (some awaited) = start_matched awaited

  pub start_transaction : M StartReply
  unfolding find_awaited start_found
  start_transaction = do found ← find_awaited; start_found found
