-- ===== src/Stations/Boot.antt =====
-- packages/core/src/ocpp/handlers/bootNotification.handler.ts and heartbeat.handler.ts
pub mod Laws
use pvpentech_core.Common.{ℕ, String, Bool, ◌&&◌, List, [], ◌∷◌, Option, none, some, str_eq}
use pvpentech_core.Database.Rows.{Station, online, Transaction, is_running, stopped}
use pvpentech_core.Database.Events.{station_online, station}
use pvpentech_core.Database.Monad.{
  Db, Context, Run, M, pure, ◌>>=◌, ◌>>◌, transact, ignore, asks, puts, gives,
}
use pvpentech_core.Transactions.Start.{is_station}
use pvpentech_core.Transactions.Outbox.{write_outbox}

pub record BootPayload : Type 0 where
  pub charge_point_model : String
  pub charge_point_vendor : String
  pub firmware_version : Option String
  pub charge_point_serial_number : Option String

pub record BootReply : Type 0 where
  pub status : String
  pub current_time : ℕ
  pub interval : ℕ

-- `{ stationId, status: { in: ['Active', 'Pending'] } }`
abbrev pub runs_at : String → Transaction → Bool
runs_at station_id t = str_eq t.station_id station_id && is_running t.status

module _ (c : Context) (station_id : String) where
  module _ (p : BootPayload) where
    abbrev pub booted_station : Station
    booted_station = record {
      id = station_id;
      model_name = some p.charge_point_model;
      vendor_name = some p.charge_point_vendor;
      firmware_version = p.firmware_version;
      firmware_status = none;
      diagnostics_status = none;
      serial_number = p.charge_point_serial_number;
      password_hash = none;
      status = online;
      last_heartbeat_at = some c.now;
      site_id = none;
      manufacturer = none;
      charging_kwh = 350;
    }

    -- An `undefined` firmware version leaves the column as it is.
    abbrev keeps : Option String → Option String → Option String
    keeps none old = old
    keeps (some v) old = some v

    abbrev pub boot_station : Station → Station
    boot_station r = record r {
      model_name = some p.charge_point_model;
      vendor_name = some p.charge_point_vendor;
      firmware_version = keeps p.firmware_version r.firmware_version;
      status = online;
      last_heartbeat_at = some c.now;
    }

    save_station : Option Station → M (Unit {0})
    save_station none s =
        (do
          gives (c.client.create (λ _. 0) (λ _. booted_station) s.stations)
              (λ t. record s { stations = t })
          pure tt)
          s
    save_station (some _) s =
        (do
          gives (c.client.update (is_station station_id) boot_station s.stations)
              (λ t. record s { stations = t })
          pure tt)
          s

    -- The body of the `$transaction`.
    go_online : Option Station → M (Unit {0})
    go_online found = do
      save_station found
      write_outbox c
          (station_online station_id p.charge_point_vendor p.charge_point_model p.firmware_version)
          (station station_id)
      pure tt

    abbrev pub reset_session : Transaction → Transaction
    reset_session t = record t {
      status = stopped;
      time_end = some c.now;
      fail_reason = some "BootNotification:Reset";
    }

    stop_stuck : M (Unit {0})
    stop_stuck s =
        puts (c.client.update_many (runs_at station_id) reset_session s.transactions)
          (λ t. record s { transactions = t }) s

    boot_reply : BootReply
    boot_reply = record {
      status = "Accepted";
      current_time = c.now;
      interval = c.heartbeat_interval;
    }

    pub boot_notification : M BootReply
    unfolding go_online stop_stuck boot_reply
    boot_notification = do
      found ← λ s. asks (c.client.find_first (is_station station_id) s.stations) s
      transact (go_online found)
      ignore stop_stuck
      pure boot_reply

  -- The time of the answer.
  pub heartbeat : M ℕ
  heartbeat = do
    ignore (λ s.
        gives
          (c.client.update (is_station station_id)
            (λ r. record r { last_heartbeat_at = some c.now }) s.stations)
          (λ t. record s { stations = t }) s)
    pure c.now
