-- ===== src/Server.antt =====
-- The events of a charger's socket: the listeners that packages/core/src/ocpp/server.ts attaches.
pub mod Laws
use Prim.Native.String
use pvpentech_core.Common.{
  ℕ, String, Bool, true, false, ◌==◌, Option, none, some, List, str_eq, if◌then◌else◌,
}
use pvpentech_core.Connections.{Connections, SocketCall, get, register, unregister}
use pvpentech_core.Database.Rows.{Station, communication_fault}
use pvpentech_core.Database.Events.{station_offline, station}
use pvpentech_core.Database.Monad.{
  Db, Context, Run, M, ok, threw, pure, ◌>>=◌, ◌>>◌, ignore, transact, gives, final,
}
use pvpentech_core.Transactions.Start.{is_station}
use pvpentech_core.Transactions.Outbox.{write_outbox}
use pvpentech_core.Stations.Status.{write_offline_log}

pub record Server : Type 0 where
  pub connections : Connections
  pub db : Db

-- The 'connection' event, after the upgrade has been verified.
abbrev pub on_connection : String → ℕ → Server → Server × List SocketCall
on_connection station_id ws s = (
  record s { connections = (register station_id ws s.connections).0 },
  (register station_id ws s.connections).1,
)

-- `connectionManager.get(stationId) === ws`
abbrev pub is_current : Option ℕ → ℕ → Bool
is_current none ws = false
is_current (some v) ws = v == ws

abbrev fault_station : Station → Station
fault_station r = record r { status = communication_fault }

module _ (c : Context) (station_id : String) where
  -- The reason that the event tells of, with the code of the close if no reason came.
  abbrev pub close_reason : String → String → String
  close_reason code reason =
      if str_eq reason ""
      then String.◌++◌ "WebSocket closed (code: " (String.◌++◌ code ")")
      else reason

  -- The body of the `$transaction`.
  pub go_offline : String → M (Unit {0})
  go_offline reason = do
    λ s.
        gives (c.client.update (is_station station_id) fault_station s.stations)
          (λ t. record s { stations = t }) s
    write_outbox c (station_offline station_id reason) (station station_id)
    pure tt

  -- The offline log is not awaited after the transaction; the two write different tables.
  pub record_close : String → M (Unit {0})
  unfolding go_offline
  record_close reason = do
    ignore (transact (go_offline reason))
    write_offline_log c station_id communication_fault

  -- The 'close' event.
  pub on_close : ℕ → String → String → Server → Server
  unfolding record_close
  on_close ws code reason s =
      if is_current (get station_id s.connections) ws
      then record {
        connections = unregister station_id s.connections;
        db = final (record_close (close_reason code reason) s.db);
      }
      else s

  -- The 'error' event.
  pub on_error : ℕ → Server → Server
  on_error ws s =
      if is_current (get station_id s.connections) ws
      then record s { connections = unregister station_id s.connections }
      else s
