-- ===== src/Stations/Status.antt =====
-- packages/core/src/ocpp/handlers/statusNotification.handler.ts
pub mod Laws
pub mod Reports
use Prim.Native.String.{◌++◌}
use pvpentech_core.Common.{
  ℕ, zero, suc, String, Bool, true, false, not, ◌&&◌, List, [], ◌∷◌, Option, none, some, ◌==◌,
  str_eq, is_some, any, or_else, if◌then◌else◌,
}
use pvpentech_core.Database.Rows.{
  Station, StationStatus, online, Connector, ConnectorStatus, available, preparing, charging,
  suspended_evse, suspended_ev, finishing, reserved, unavailable, Transaction, is_running, stopped,
  FaultLog, OfflineLog,
}
use pvpentech_core.Database.Events.{
  Event, connector_status_changed, fault_raised, fault_cleared, connector,
}
use pvpentech_core.Database.Monad.{
  Db, Context, Run, M, pure, ◌>>=◌, ◌>>◌, transact, ignore, asks, puts, gives,
}
use pvpentech_core.Transactions.Start.{is_station, is_connector, site_of}
use pvpentech_core.Transactions.Outbox.{write_outbox}

pub record StatusPayload : Type 0 where
  pub connector_id : ℕ
  pub error_code : String
  pub status : String
  pub timestamp : Option String
  pub info : Option String
  pub vendor_id : Option String
  pub vendor_error_code : Option String

-- A status that the database does not know counts as unavailable.
unfoldable pub connector_status : String → ConnectorStatus
connector_status s =
    if str_eq s "Available"
    then available
    else if str_eq s "Preparing"
    then preparing
    else if str_eq s "Charging"
    then charging
    else if str_eq s "SuspendedEVSE"
    then suspended_evse
    else if str_eq s "SuspendedEV"
    then suspended_ev
    else if str_eq s "Finishing"
    then finishing
    else if str_eq s "Reserved"
    then reserved
    else if str_eq s "Unavailable"
    then unavailable
    else if str_eq s "Faulted"
    then ConnectorStatus.faulted
    else unavailable

-- `p.errorCode && p.errorCode !== 'NoError' ? p.errorCode : null`
unfoldable pub error_of : String → Option String
error_of code = if str_eq code "" then none else if str_eq code "NoError" then none else some code

-- `OFFLINE_STATUSES.includes(status)`
unfoldable pub is_offline : StationStatus → Bool
is_offline StationStatus.faulted = true
is_offline StationStatus.inspecting = true
is_offline StationStatus.communication_fault = true
is_offline StationStatus.unknown = true
is_offline _ = false

module _ (c : Context) where
  -- `p.timestamp ? new Date(p.timestamp) : new Date()`
  abbrev pub date_of : Option String → ℕ
  date_of none = c.now
  date_of (some t) = if str_eq t "" then c.now else c.date t

  -- Every error is caught.
  unfoldable pub write_offline_log : String → StationStatus → M (Unit {0})
  write_offline_log station status = ignore (do
    site ← λ s. asks (c.client.find_first (is_station station) s.stations) s
    λ s.
        gives
          (c.client.create (λ _. 0)
            (λ _. record { station_id = station; site_id = site_of site; status = status })
            s.offline_logs)
          (λ t. record s { offline_logs = t }) s)

  module _ (station : String) (p : StatusPayload) where
    -- Connector 0 is the station itself.
    abbrev station_status : StationStatus
    station_status = if str_eq p.status "Faulted" then StationStatus.faulted else online

    set_station_status : M (Unit {0})
    set_station_status = do
      λ s.
          gives
            (c.client.update (is_station station) (λ r. record r { status = station_status })
              s.stations)
            (λ t. record s { stations = t }) s
      pure tt

    report_station : M (Unit {0})
    unfolding set_station_status is_offline
    report_station = do
      ignore set_station_status
      (if is_offline station_status then write_offline_log station station_status else pure tt)

    abbrev pub reported : Connector → Connector
    reported r = record r {
      current_status = connector_status p.status;
      error_code = error_of p.error_code;
      info = p.info;
      vendor_id = p.vendor_id;
      vendor_error_code = p.vendor_error_code;
      status_timestamp = some (date_of p.timestamp);
    }

    abbrev pub new_connector : Connector
    new_connector = record {
      station_id = station;
      connector_id = p.connector_id;
      current_status = connector_status p.status;
      error_code = error_of p.error_code;
      info = p.info;
      vendor_id = p.vendor_id;
      vendor_error_code = p.vendor_error_code;
      status_timestamp = some (date_of p.timestamp);
    }

    pub save_connector : M (Unit {0})
    save_connector s =
        puts
          (c.client.upsert (is_connector station p.connector_id) reported new_connector
            s.connectors)
          (λ t. record s { connectors = t }) s

    tell : Event → M (Unit {0})
    tell event = do write_outbox c event (connector station p.connector_id); pure tt

    -- `FaultRaised` if there is an error, `FaultCleared` if there was one and is none.
    tell_fault : Bool → Option String → M (Unit {0})
    unfolding tell
    tell_fault was_in_fault (some code) = tell (fault_raised station p.connector_id code p.info)
    tell_fault true none = tell (fault_cleared station p.connector_id)
    tell_fault false none = pure tt

    -- The body of the `$transaction`.
    pub change_connector : Bool → M (Unit {0})
    unfolding tell_fault
    change_connector was_in_fault = do
      save_connector
      tell (connector_status_changed station p.connector_id p.status (error_of p.error_code))
      tell_fault was_in_fault (error_of p.error_code)

    -- `{ stationId, connectorId, status: { in: ['Active', 'Pending'] } }`
    abbrev pub runs_on : Transaction → Bool
    runs_on t =
        str_eq t.station_id station && t.connector_id == p.connector_id && is_running t.status

    abbrev pub freed : Transaction → Transaction
    freed t = record t {
      status = stopped;
      time_end = some c.now;
      fail_reason = some "StatusNotification:Available";
    }

    -- The auto-stop, whose errors are not caught.
    stop_found : List Transaction → M (Unit {0})
    stop_found [] s = pure tt s
    stop_found (r ∷ rs) s =
        puts (c.client.update_many (λ t. any (λ x. x.id == t.id) (r ∷ rs)) freed s.transactions)
          (λ t. record s { transactions = t }) s

    pub stop_stuck : M (Unit {0})
    unfolding stop_found
    stop_stuck = do
      stuck ← λ s. asks (c.client.find_many runs_on s.transactions) s
      stop_found stuck

    abbrev error_column : Option Connector → Option String
    error_column none = none
    error_column (some r) = r.error_code

    pub report_connector : M (Unit {0})
    unfolding stop_stuck
    report_connector = do
      prev ← λ s. asks (c.client.find_first (is_connector station p.connector_id) s.connectors) s
      transact (change_connector (is_some (error_column prev)))
      (if str_eq p.status "Available" then stop_stuck else pure tt)

    -- `[errorCode, vendorErrorCode, info].filter(Boolean).join(' / ')`
    abbrev join_parts : Option String → String → String
    join_parts none rest = rest
    join_parts (some s) rest =
        if str_eq s "" then rest else if str_eq rest "" then s else s ++ " / " ++ rest

    description : String
    description =
        let joined =
          join_parts (error_of p.error_code)
            (join_parts p.vendor_error_code (join_parts p.info "")) in
        if str_eq joined "" then "Charger reported Faulted status" else joined

    log_fault : M (Unit {0})
    unfolding description
    log_fault = do
      λ s.
          gives
            (c.client.create (λ _. 0)
              (λ _. record {
                station_id = station;
                fault_type = "CommunicationError";
                description = some description;
                reported_by = none;
              })
              s.fault_logs)
            (λ t. record s { fault_logs = t }) s
      pure tt

    pub status_notification : M (Unit {0})
    unfolding report_station report_connector log_fault
    status_notification = do
      (if p.connector_id == 0 then report_station else report_connector)
      (if str_eq p.status "Faulted" then ignore log_fault else pure tt)
