-- ===== src/Examples.antt =====
-- A small system to run the models on: the client in memory, one station with a session, and texts
-- for the three frames.
mod Sessions
mod Sockets
mod Frames
mod Others
mod Services
mod Internal
use pvpentech_core.Common.{
  ℕ, ◌+◌, ◌-◌, ◌*◌, ◌/◌, max, String, List, [], ◌∷◌, Option, none, some, str_eq, if◌then◌else◌,
}
use pvpentech_core.Database.Rows.{
  Station, online, Connector, charging, Transaction, active, Settlement,
}
use pvpentech_core.Database.Events.{OutboxRow, station_online, station}
use pvpentech_core.Database.Monad.{Db, Context, Doubles}
use pvpentech_core.Database.Memory.{memory}

abbrev pub whole_numbers : Doubles
whole_numbers = record {
  of_ℕ = λ n. n;
  sub = λ a b. a - b;
  div = λ a b. a / b;
  mul = λ a b. a * b;
  max = λ a b. max a b;
  round = λ a. a;
  floor = λ a. a;
  parse_float = λ _. 0;
}

abbrev pub context : Context
context = record {
  client = memory;
  doubles = whole_numbers;
  now = 1000000;
  date = λ _. 900000;
  uuid = λ _. "e-1";
  session_name = λ _. "S-1";
  enqueue = λ job jobs. some (job ∷ jobs);
  heartbeat_interval = 300;
}

abbrev pub cp1 : Station
cp1 = record {
  id = "CP1";
  model_name = none;
  vendor_name = none;
  firmware_version = none;
  firmware_status = none;
  diagnostics_status = none;
  serial_number = none;
  password_hash = none;
  status = online;
  last_heartbeat_at = none;
  site_id = some 4;
  manufacturer = none;
  charging_kwh = 350;
}

abbrev pub session : Transaction
session = record {
  id = 7;
  session_id = "S-0";
  ocpp_transaction_id = some 7;
  station_id = "CP1";
  connector_id = 1;
  id_tag = some "TAG";
  goal_type = none;
  goal_value = none;
  status = active;
  meter_start = 1000;
  meter_end = none;
  time_start = 800000;
  time_end = none;
  cost_vnd = none;
  fail_reason = none;
  unit_price_vnd = some 3500;
  settlement = record {
    margin_rate = none;
    settlement_schedule = none;
    settlement_day = none;
    settlement_day_of_week = none;
  };
}

abbrev pub waiting_event : OutboxRow
waiting_event = record {
  id = 1;
  event_id = "e-0";
  event = station_online "CP1" "V" "M" none;
  aggregate = station "CP1";
  occurred_at = 900000;
  published_at = none;
  attempts = 9;
  last_error = none;
}

abbrev pub db : Db
db = record {
  stations = cp1 ∷ [];
  connectors = [];
  transactions = session ∷ [];
  meter_values = [];
  id_tokens = [];
  fault_logs = [];
  offline_logs = [];
  diagnostics = [];
  progress = [];
  campaigns = [];
  commands = [];
  outbox = waiting_event ∷ [];
  goal_checks = [];
  provisioning = [];
  sequences = [];
  manufacturers = [];
  firmwares = [];
  messages = [];
  variables = [];
  configs = [];
}
