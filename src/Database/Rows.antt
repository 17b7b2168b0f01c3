-- ===== src/Database/Rows.antt =====
-- The rows of the tables in prisma/schema.prisma that the handlers read or write. A time is a
-- number of milliseconds, a Decimal of two places its hundredths, `Option` is a nullable column.
use pvpentech_core.Common.{ℕ, String, Bool, true, false, List, Option}

pub data StationStatus : Type 0 where
  online offline faulted inspecting communication_fault unknown : StationStatus

pub record Station : Type 0 where
  pub id : String
  pub model_name : Option String
  pub vendor_name : Option String
  pub firmware_version : Option String
  pub firmware_status : Option String
  pub diagnostics_status : Option String
  pub serial_number : Option String
  pub password_hash : Option String
  pub status : StationStatus
  pub last_heartbeat_at : Option ℕ
  pub site_id : Option ℕ
  pub manufacturer : Option String
  pub charging_kwh : ℕ

pub data ConnectorStatus : Type 0 where
  available preparing charging suspended_evse suspended_ev : ConnectorStatus
  finishing reserved unavailable faulted : ConnectorStatus

pub record Connector : Type 0 where
  pub station_id : String
  pub connector_id : ℕ
  pub current_status : ConnectorStatus
  pub error_code : Option String
  pub info : Option String
  pub vendor_id : Option String
  pub vendor_error_code : Option String
  pub status_timestamp : Option ℕ

pub data TransactionStatus : Type 0 where
  pending active stopped failed : TransactionStatus

abbrev pub is_pending : TransactionStatus → Bool
is_pending pending = true
is_pending _ = false

abbrev pub is_active : TransactionStatus → Bool
is_active active = true
is_active _ = false

-- `status: { in: ['Active', 'Pending'] }`
abbrev pub is_running : TransactionStatus → Bool
is_running pending = true
is_running active = true
is_running _ = false

pub data GoalType : Type 0 where
  time kwh amount free : GoalType

-- The snapshot of the partner's settlement terms.
pub record Settlement : Type 0 where
  pub margin_rate : Option String
  pub settlement_schedule : Option String
  pub settlement_day : Option ℕ
  pub settlement_day_of_week : Option ℕ

pub record Transaction : Type 0 where
  pub id : ℕ
  pub session_id : String
  pub ocpp_transaction_id : Option ℕ
  pub station_id : String
  pub connector_id : ℕ
  pub id_tag : Option String
  pub goal_type : Option GoalType
  pub goal_value : Option ℕ
  pub status : TransactionStatus
  pub meter_start : ℕ
  pub meter_end : Option ℕ
  pub time_start : ℕ
  pub time_end : Option ℕ
  pub cost_vnd : Option ℕ
  pub fail_reason : Option String
  pub unit_price_vnd : Option ℕ
  pub settlement : Settlement

-- A double is its bit pattern (Doubles of Database.Monad).
pub record MeterValue : Type 0 where
  pub transaction_id : ℕ
  pub timestamp : ℕ
  pub measurand : String
  pub value : ℕ
  pub unit : Option String
  pub phase : Option String
  pub context : Option String
  pub format : Option String
  pub location : Option String

pub data IdTokenStatus : Type 0 where
  accepted blocked expired invalid concurrent_tx : IdTokenStatus

pub record IdToken : Type 0 where
  pub id_tag : String
  pub status : IdTokenStatus
  pub expiry_date : Option ℕ

pub record FaultLog : Type 0 where
  pub station_id : String
  pub fault_type : String
  pub description : Option String
  pub reported_by : Option String

pub record OfflineLog : Type 0 where
  pub station_id : String
  pub site_id : Option ℕ
  pub status : StationStatus

pub data DiagnosticsStatus : Type 0 where
  idle uploading uploaded upload_failed : DiagnosticsStatus

pub record DiagnosticsRequest : Type 0 where
  pub id : ℕ
  pub station_id : String
  pub status : DiagnosticsStatus
  pub requested_at : ℕ
  pub completed_at : Option ℕ

pub data ProgressStatus : Type 0 where
  queued sent downloading downloaded installing installed failed send_error : ProgressStatus

pub record Progress : Type 0 where
  pub id : ℕ
  pub campaign_id : ℕ
  pub station_id : Option String
  pub status : ProgressStatus
  pub started_at : Option ℕ
  pub completed_at : Option ℕ
  pub error : Option String
  pub updated_at : ℕ

pub data CampaignStatus : Type 0 where
  running completed cancelled : CampaignStatus

-- `{ stationIds?, model?, vendor?, siteId? }`
pub record TargetFilter : Type 0 where
  pub station_ids : List String
  pub model : Option String
  pub vendor : Option String
  pub site_id : Option ℕ

pub record Campaign : Type 0 where
  pub id : ℕ
  pub firmware_id : ℕ
  pub target_filter : TargetFilter
  pub status : CampaignStatus
  pub started_by : String
  pub completed_at : Option ℕ
  pub notes : Option String

pub data CommandStatus : Type 0 where
  pending completed error timeout : CommandStatus

abbrev pub is_pending_command : CommandStatus → Bool
is_pending_command CommandStatus.pending = true
is_pending_command _ = false

pub record CommandResult : Type 0 where
  pub message_id : String
  pub station_id : Option String
  pub action : String
  pub status : CommandStatus
  pub error_code : Option String
  pub error_description : Option String
  pub requested_by : Option String
  pub sent_at : ℕ
  pub received_at : Option ℕ

pub data ProvisioningStatus : Type 0 where
  registered provisioned rejected revoked : ProvisioningStatus

pub record Provisioning : Type 0 where
  pub id : ℕ
  pub serial_number : String
  pub model_name : Option String
  pub client_id : Option String
  pub station_id : Option String
  pub status : ProvisioningStatus
  pub registered_by : Option String
  pub provisioned_at : Option ℕ
  pub reject_reason : Option String
  pub manufacturer_id : Option ℕ
  pub charging_kwh : ℕ

pub record StationIdSequence : Type 0 where
  pub id : ℕ
  pub last_number : ℕ

pub record Manufacturer : Type 0 where
  pub id : ℕ
  pub channel_id : String
  pub name : String
  pub token_hash : String
  pub is_active : Bool

pub record Firmware : Type 0 where
  pub id : ℕ
  pub filename : String
  pub original_name : String
  pub version : String
  pub charger_model : Option String
  pub charger_vendor : Option String
  pub file_size : ℕ
  pub sha256 : String
  pub uploaded_by : String
  pub is_active : Bool
  pub notes : Option String

pub record OcppMessage : Type 0 where
  pub station_id : String
  pub message_id : String
  pub direction : ℕ
  pub inbound : Bool
  pub action : Option String
  pub payload : String
  pub created_at : ℕ

pub record DeviceVariable : Type 0 where
  pub station_id : String
  pub component_name : String
  pub variable_name : String
  pub variable_value : Option String

pub record ChargerConfig : Type 0 where
  pub station_id : String
  pub key : String
  pub value : Option String
