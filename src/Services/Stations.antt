-- ===== src/Services/Stations.antt =====
-- packages/core/src/services/station.service.ts: the administration of the chargers.
pub mod Removal
pub mod Serial
use pvpentech_core.Common.{
  ℕ, String, Bool, true, false, List, [], ◌∷◌, Option, none, some, str_eq, ltb, or_else, keep,
  change, map, if◌then◌else◌,
}
use pvpentech_core.Connections.{Connections, ReadyState, is_connected}
use pvpentech_core.Database.Rows.{
  Station, StationStatus, offline, Connector, ConnectorStatus, Transaction, is_running, FaultLog,
  OfflineLog, CommandResult, DiagnosticsRequest, Progress, Provisioning, OcppMessage,
  DeviceVariable, ChargerConfig,
}
use pvpentech_core.Database.Monad.{Db, Context}
use pvpentech_core.Services.{
  over, over_null, Failure, not_found, conflict, forbidden, bad_request, database, Outcome, done,
  refused, Service, give, refuse, ◌>>=◌, ◌>>◌, atomically, reads, writes, answers,
}
use pvpentech_core.Services.Provision.{has_serial, is_barred, or_text}
use pvpentech_core.Transactions.Start.{is_station}

abbrev pub no_station : Failure
no_station = not_found "station:notFound"

abbrev pub active_session : Failure
active_session = conflict "station:activeSession"

abbrev pub has_history : Failure
has_history = conflict "station:hasTransactionHistory"

abbrev pub same_station : String → Option String → Bool
same_station id none = false
same_station id (some station) = str_eq station id

-- The rows of each table that belong to a station.
abbrev pub session_of : String → Transaction → Bool
session_of id r = str_eq r.station_id id

abbrev pub connector_of : String → Connector → Bool
connector_of id r = str_eq r.station_id id

abbrev pub message_of : String → OcppMessage → Bool
message_of id r = str_eq r.station_id id

abbrev pub offline_log_of : String → OfflineLog → Bool
offline_log_of id r = str_eq r.station_id id

abbrev pub fault_of : String → FaultLog → Bool
fault_of id r = str_eq r.station_id id

abbrev pub variable_of : String → DeviceVariable → Bool
variable_of id r = str_eq r.station_id id

abbrev pub config_of : String → ChargerConfig → Bool
config_of id r = str_eq r.station_id id

abbrev pub diagnostics_of : String → DiagnosticsRequest → Bool
diagnostics_of id r = str_eq r.station_id id

abbrev pub progress_of : String → Progress → Bool
progress_of id r = same_station id r.station_id

abbrev pub provisioning_of : String → Provisioning → Bool
provisioning_of id r = same_station id r.station_id

-- `data: { stationId: null }`
abbrev pub unlink_progress : Progress → Progress
unlink_progress r = record r { station_id = none }

abbrev pub unlink_provisioning : Provisioning → Provisioning
unlink_provisioning r = record r { station_id = none }

abbrev pub command_of : String → CommandResult → Bool
command_of id r = same_station id r.station_id

-- `onDelete: SetNull` of the relation `OcppCommandResult.station`
abbrev pub unlink_command : CommandResult → CommandResult
unlink_command r = record r { station_id = none }

-- A session of the station that is pending or active.
abbrev pub runs_at : String → Transaction → Bool
runs_at id r = if session_of id r then is_running r.status else false

pub record CreateStation : Type 0 where
  pub id : String
  pub site_id : Option ℕ
  pub manufacturer : Option String
  pub serial_number : Option String
  pub firmware_version : Option String
  pub charging_kwh : Option ℕ

-- A field that is left out keeps the column; `site_id` may also be set to null.
pub record UpdateStation : Type 0 where
  pub site_id : Option (Option ℕ)
  pub manufacturer : Option String
  pub serial_number : Option String
  pub model_name : Option String
  pub firmware_version : Option String
  pub charging_kwh : Option ℕ

pub record FaultReport : Type 0 where
  pub fault_type : String
  pub description : Option String
  pub reported_by : String

abbrev pub updated : UpdateStation → Station → Station
updated d r = record r {
  site_id = over d.site_id r.site_id;
  manufacturer = over_null d.manufacturer r.manufacturer;
  serial_number = over_null d.serial_number r.serial_number;
  model_name = over_null d.model_name r.model_name;
  firmware_version = over_null d.firmware_version r.firmware_version;
  charging_kwh = over d.charging_kwh r.charging_kwh;
}

module _ (c : Context) where
  -- A call that gives a table anew, with the table's place in the state.
  delete_many_in :
      {Row : Type 0} → (Row → Bool) → (Db → List Row) → (List Row → Db → Db) → Service (Unit {0})
  delete_many_in p table set s = writes (c.client.delete_many p (table s)) (λ t. set t s) s

  update_many_in :
      {Row : Type 0}
      → (Row → Bool)
      → (Row → Row)
      → (Db → List Row)
      → (List Row → Db → Db)
      → Service (Unit {0})
  update_many_in p f table set s = writes (c.client.update_many p f (table s)) (λ t. set t s) s

  -- With what the database itself does of it to the records of commands.
  delete_station : String → Service (Unit {0})
  delete_station id s =
      writes (c.client.delete (is_station id) s.stations)
        (λ t. record s {
          stations = t;
          commands = change (command_of id) unlink_command s.commands;
        })
        s

  -- The calls of a list, in its order.
  run_all : List (Service (Unit {0})) → Service (Unit {0})
  run_all [] = give tt
  run_all (m ∷ ms) = m >> run_all ms

  -- The rows that the query includes are only shown.
  pub find_by_id : String → Service Station
  find_by_id id = do
    found ← λ s. reads (c.client.find_first (is_station id) s.stations) s
    elim found [ none ↦ refuse no_station | some r ↦ give r ]

  -- The columns that are left out have the schema's defaults; a charging power of 3.5 is 350.
  abbrev pub created : CreateStation → Station
  created d = record {
    id = d.id;
    model_name = none;
    vendor_name = none;
    firmware_version = d.firmware_version;
    firmware_status = none;
    diagnostics_status = none;
    serial_number = d.serial_number;
    password_hash = none;
    status = offline;
    last_heartbeat_at = none;
    site_id = d.site_id;
    manufacturer = d.manufacturer;
    charging_kwh = over d.charging_kwh 350;
  }

  pub create : CreateStation → Service Station
  create d = do
    existing ← λ s. reads (c.client.find_first (is_station d.id) s.stations) s
    elim existing [
      | some r ↦ refuse (conflict "")
      | none ↦ λ s.
          answers (c.client.create (λ _. 0) (λ _. created d) s.stations)
            (λ t. record s { stations = t }) s
    ]

  pub update : String → UpdateStation → Service Station
  unfolding find_by_id
  update id d = do
    find_by_id id
    λ s.
        answers (c.client.update (is_station id) (updated d) s.stations)
          (λ t. record s { stations = t }) s

  -- The calls of `delete`'s `$transaction`: nine tables let go of the station, then it goes.
  abbrev cascade : String → List (Service (Unit {0}))
  cascade id =
      delete_many_in (message_of id) (λ s. s.messages) (λ t s. record s { messages = t })
      ∷ delete_many_in (offline_log_of id) (λ s. s.offline_logs)
          (λ t s. record s { offline_logs = t })
      ∷ delete_many_in (fault_of id) (λ s. s.fault_logs) (λ t s. record s { fault_logs = t })
      ∷ delete_many_in (variable_of id) (λ s. s.variables) (λ t s. record s { variables = t })
      ∷ delete_many_in (config_of id) (λ s. s.configs) (λ t s. record s { configs = t })
      ∷ delete_many_in (diagnostics_of id) (λ s. s.diagnostics)
          (λ t s. record s { diagnostics = t })
      ∷ delete_many_in (connector_of id) (λ s. s.connectors) (λ t s. record s { connectors = t })
      ∷ update_many_in (progress_of id) unlink_progress (λ s. s.progress)
          (λ t s. record s { progress = t })
      ∷ update_many_in (provisioning_of id) unlink_provisioning (λ s. s.provisioning)
          (λ t s. record s { provisioning = t })
      ∷ delete_station id
      ∷ []

  -- What comes after the search for a running session, and after the count of all sessions.
  delete_counted : String → ℕ → Service (Unit {0})
  unfolding run_all delete_many_in update_many_in delete_station
  delete_counted id n = if ltb 0 n then refuse has_history else atomically (run_all (cascade id))

  delete_checked : String → Option Transaction → Service (Unit {0})
  unfolding delete_counted
  delete_checked id (some r) = refuse active_session
  delete_checked id none = do
    n ← λ s. reads (c.client.count (session_of id) s.transactions) s
    delete_counted id n

  pub delete : String → Service (Unit {0})
  unfolding find_by_id delete_checked
  delete id = do
    find_by_id id
    running ← λ s. reads (c.client.find_first (runs_at id) s.transactions) s
    delete_checked id running

  pub add_fault_log : String → FaultReport → Service FaultLog
  unfolding find_by_id
  add_fault_log id d = do
    find_by_id id
    λ s.
        answers
          (c.client.create (λ _. 0)
            (λ _. record {
              station_id = id;
              fault_type = d.fault_type;
              description = d.description;
              reported_by = some d.reported_by;
            })
            s.fault_logs)
          (λ t. record s { fault_logs = t }) s

  -- With the random password and its hash.
  pub reset_password : String → String → String → Service String
  unfolding find_by_id
  reset_password password hash id = do
    find_by_id id
    λ s.
        answers
          (c.client.update (is_station id) (λ r. record r { password_hash = some hash }) s.stations)
          (λ t. record s { stations = t }) s
    give password
