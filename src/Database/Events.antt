-- ===== src/Database/Events.antt =====
-- packages/shared/src/types/events.ts: the events that the core tells the portal of, and the row
-- of the outbox that one is kept in.
use pvpentech_core.Common.{ℕ, String, Option}
use pvpentech_core.Database.Rows.{Settlement}

pub record TransactionStarted : Type 0 where
  pub transaction_id : ℕ
  pub session_id : String
  pub station_id : String
  pub connector_id : ℕ
  pub id_tag : Option String
  pub meter_start : ℕ
  pub time_start : ℕ
  pub unit_price_vnd : Option ℕ
  pub settlement : Settlement
  pub site_id : Option ℕ

pub record TransactionStopped : Type 0 where
  pub transaction_id : ℕ
  pub session_id : String
  pub station_id : String
  pub meter_start : ℕ
  pub meter_stop : ℕ
  pub total_kwh : ℕ
  pub cost_vnd : Option ℕ
  pub unit_price_vnd : Option ℕ
  pub time_start : ℕ
  pub time_end : ℕ
  pub reason : Option String

pub record MeterValueUpdate : Type 0 where
  pub transaction_id : ℕ
  pub session_id : String
  pub station_id : String
  pub current_kwh : Option ℕ
  pub current_w : Option ℕ

pub data Event : Type 0 where
  station_online : (station_id vendor model : String) (firmware_version : Option String) → Event
  station_offline : (station_id reason : String) → Event
  transaction_started : TransactionStarted → Event
  transaction_stopped : TransactionStopped → Event
  meter_value_update : MeterValueUpdate → Event
  connector_status_changed :
      (station_id : String) (connector_id : ℕ) (status : String) (error_code : Option String)
      → Event
  fault_raised :
      (station_id : String) (connector_id : ℕ) (error_code : String) (info : Option String) → Event
  fault_cleared : (station_id : String) (connector_id : ℕ) → Event
  firmware_status_changed : (station_id status : String) → Event
  command_result_received : (station_id message_id action status : String) → Event

pub data Aggregate : Type 0 where
  transaction : ℕ → Aggregate
  station : String → Aggregate
  connector : String → ℕ → Aggregate
  ocpp_command : String → Aggregate

pub record OutboxRow : Type 0 where
  pub id : ℕ
  pub event_id : String
  pub event : Event
  pub aggregate : Aggregate
  pub occurred_at : ℕ
  pub published_at : Option ℕ
  pub attempts : ℕ
  pub last_error : Option String
