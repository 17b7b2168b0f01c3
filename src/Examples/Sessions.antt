-- ===== src/Examples/Sessions.antt =====
-- The models of sessions, stations and commands at concrete inputs.
use pvpentech_core.Common.{◌∷◌, true, ◌≡◌, ◌⊎◌, false, [], none, some, any}
use pvpentech_core.Database.Rows.{Transaction}
use pvpentech_core.Database.Client.{Finds}
use pvpentech_core.Database.Monad.{Db, ok, threw}
use pvpentech_core.Database.Memory.{memory, memory-IsClient, memory-IsWorking}
use pvpentech_core.Transactions.Stop.{StopPayload, is_target, stop_transaction}
use pvpentech_core.Transactions.Stop.Laws.{lacks_samples, IsClosed, stop_transaction-atomic}
use pvpentech_core.Transactions.Start.{StartPayload, StartReply, start_transaction}
use pvpentech_core.Transactions.Start.Opened.{IsOpened}
use pvpentech_core.Transactions.Start.Laws.{start_transaction-atomic}
use pvpentech_core.Stations.Authorize.{authorize, has_tag, IdTagInfo, IsEarned, authorize-IsEarned}
use pvpentech_core.Stations.Boot.{BootPayload, BootReply, boot_notification}
use pvpentech_core.Stations.Boot.Laws.{Untouched, TellsOnline, NoneRuns, boot_notification-cases}
use pvpentech_core.Stations.Diagnostics.{
  diagnostics_status_notification, diagnostics_status, Outcome, diagnostics_status_notification_lem,
}
use pvpentech_core.Stations.Firmware.{firmware_status_notification, normalized}
use pvpentech_core.Stations.Firmware.Laws.{
  TellsOnce, CompletesOnly, firmware_status_notification_lem,
}
use pvpentech_core.Stations.Status.{StatusPayload, report_connector, stop_stuck, runs_on}
use pvpentech_core.Stations.Status.Laws.{stop_stuck-ends}
use pvpentech_core.Stations.Status.Reports.{Reports, report_connector-atomic}
use pvpentech_core.Commands.{
  Texts, answered, failed, finish_command, is_left, bootstrap_cleanup, sweep_stale_pending,
}
use pvpentech_core.Commands.Finish.{RecordsWhole, finish_command-atomic}
use pvpentech_core.Commands.Sweep.{bootstrap_cleanup_lem}
use pvpentech_core.Examples.{context, db}

abbrev stop_request : StopPayload
stop_request = record {
  transaction_id = 7;
  meter_stop = 6000;
  timestamp = "2026-01-01T00:00:00Z";
  reason = none;
  transaction_data = record { timestamp = "2026-01-01T00:00:00Z"; sampled_value = none } ∷ [];
}

stop_transaction-atomic_example :
    (stop_transaction context "CP1" stop_request db ≡ threw db)
    ⊎ ((stop_transaction context "CP1" stop_request db ≡ ok "Accepted" db)
        × (any (is_target "CP1" 7) db.transactions ≡ false))
    ⊎ ((found : Transaction) × (t : Db) × (((stop_transaction context "CP1" stop_request db
              ≡ threw t)
            × (any lacks_samples stop_request.transaction_data ≡ true))
          ⊎ ((stop_transaction context "CP1" stop_request db ≡ ok "Accepted" t)
              × (any lacks_samples stop_request.transaction_data ≡ false)))
        × Finds (is_target "CP1" 7) found db.transactions
        × IsClosed context memory-IsClient "CP1" stop_request db t found)
stop_transaction-atomic_example =
    stop_transaction-atomic context memory-IsClient "CP1" stop_request db

abbrev start_request : StartPayload
start_request = record {
  connector_id = 1;
  id_tag = "TAG";
  meter_start = 6000;
  timestamp = "2026-01-01T00:00:00Z";
}

start_transaction-atomic_example :
    (start_transaction context "CP1" start_request db ≡ threw db)
    ⊎ ((t : Db) × (reply : StartReply) × (start_transaction context "CP1" start_request db
          ≡ ok reply t)
        × (reply.status ≡ "Accepted")
        × IsOpened context memory-IsClient "CP1" start_request db t reply.transaction_id)
start_transaction-atomic_example =
    start_transaction-atomic context memory-IsClient "CP1" start_request db

abbrev fault_report : StatusPayload
fault_report = record {
  connector_id = 1;
  error_code = "GroundFailure";
  status = "Faulted";
  timestamp = none;
  info = none;
  vendor_id = none;
  vendor_error_code = none;
}

report_connector-atomic_example :
    (report_connector context "CP1" fault_report db ≡ threw db)
    ⊎ Reports context memory-IsClient "CP1" fault_report db
report_connector-atomic_example =
    report_connector-atomic context memory-IsClient "CP1" fault_report db

stop_stuck-ends_example :
    (t : Db) × (stop_stuck context "CP1" fault_report db ≡ ok tt t)
    × (any (runs_on context "CP1" fault_report) t.transactions ≡ false)
stop_stuck-ends_example =
    stop_stuck-ends context memory-IsClient "CP1" fault_report memory-IsWorking db

abbrev boot_request : BootPayload
boot_request = record {
  charge_point_model = "M";
  charge_point_vendor = "V";
  firmware_version = some "1.0";
  charge_point_serial_number = none;
}

boot_notification-cases_example :
    (boot_notification context "CP1" boot_request db ≡ threw db)
    ⊎ ((t : Db) × (reply : BootReply) × (boot_notification context "CP1" boot_request db
          ≡ ok reply t)
        × (reply.status ≡ "Accepted")
        × TellsOnline context memory-IsClient "CP1" boot_request db t
        × (Untouched context memory-IsClient "CP1" boot_request db.transactions t.transactions
            ⊎ NoneRuns context memory-IsClient "CP1" boot_request db.transactions t.transactions))
boot_notification-cases_example =
    boot_notification-cases context memory-IsClient "CP1" boot_request db

firmware_status_notification_lem_example :
    (t : Db) × (firmware_status_notification context "CP1" "Installed" db ≡ ok tt t)
    × TellsOnce context memory-IsClient "CP1" (normalized "Installed") db t
    × CompletesOnly context memory-IsClient "CP1" db t
firmware_status_notification_lem_example =
    firmware_status_notification_lem context memory-IsClient "CP1" "Installed" db

diagnostics_status_notification_lem_example :
    (t : Db) × (diagnostics_status_notification context "CP1" "Uploaded" db ≡ ok tt t)
    × (t.outbox ≡ db.outbox)
    × Outcome context "CP1" memory-IsClient (diagnostics_status "Uploaded") db t
diagnostics_status_notification_lem_example =
    diagnostics_status_notification_lem context "CP1" memory-IsClient "Uploaded" db

authorize-IsEarned_example :
    ((memory.find_first (has_tag "TAG") db.id_tokens ≡ none)
      × (authorize context "TAG" db ≡ threw db))
    ⊎ ((info : IdTagInfo) × (authorize context "TAG" db ≡ ok info db)
        × IsEarned 1000000 "TAG" info db)
authorize-IsEarned_example = authorize-IsEarned context memory-IsClient "TAG" db

abbrev plain_texts : Texts
plain_texts = record { lower = λ s. s; trim = λ s. s; cut = λ n s. s }

finish_command-atomic_example :
    ((t : Db) × (finish_command context plain_texts "CP1" "Reset" "m-1" (answered none) db
        ≡ ok tt t)
      × RecordsWhole context memory-IsClient plain_texts "CP1" "Reset" "m-1" (answered none) db t)
    × ((t : Db) × (finish_command context plain_texts "CP1" "Reset" "m-1" (failed "timeout") db
          ≡ threw t)
        × RecordsWhole context memory-IsClient plain_texts "CP1" "Reset" "m-1"
            (failed "timeout")
            db
            t)
finish_command-atomic_example =
    finish_command-atomic context memory-IsClient plain_texts "CP1" "Reset" "m-1" none "timeout" db

bootstrap_cleanup_lem_example :
    (t : Db) × (bootstrap_cleanup context db ≡ ok tt t)
    × (any (is_left context) t.commands ≡ false)
    × (sweep_stale_pending context 30000 t ≡ ok tt t)
bootstrap_cleanup_lem_example =
    bootstrap_cleanup_lem context memory-IsClient memory-IsWorking 30000 db
