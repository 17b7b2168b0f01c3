-- ===== src/Services/Stations/Serial.antt =====
-- findBySerial of packages/core/src/services/station.service.ts: the station that the mobile app
-- asks for by a serial number or its last digits.
use pvpentech_core.Common.{ℕ, String, Bool, List, [], ◌∷◌, Option, none, some, map, if◌then◌else◌}
use pvpentech_core.Connections.{Connections, ReadyState, is_connected}
use pvpentech_core.Database.Rows.{Station, StationStatus, Connector, ConnectorStatus, Provisioning}
use pvpentech_core.Database.Monad.{Context}
use pvpentech_core.Services.{forbidden, bad_request, done, Service, give, refuse, ◌>>=◌, reads}
use pvpentech_core.Services.Provision.{has_serial, is_barred, or_text}
use pvpentech_core.Transactions.Start.{is_station}
use pvpentech_core.Services.Stations.{no_station, connector_of}

-- What the mobile app is told of a station.
pub record StationView : Type 0 where
  pub station_id : String
  pub serial_number : String
  pub model_name : Option String
  pub status : StationStatus
  pub site_id : Option ℕ
  pub is_connected : Bool
  pub connectors : List (ℕ × ConnectorStatus)

-- `station.modelName ?? provisioning.modelName`
abbrev or_null : Option String → Option String → Option String
or_null none b = b
or_null (some a) b = some a

-- `ends` is the database's `LIKE '%serial'`.
module _ (c : Context) (ends : String → String → Bool) (ready : ℕ → ReadyState)
    (m : Connections) where
  abbrev pub view_of : Provisioning → Station → List Connector → StationView
  view_of p r connectors = record {
    station_id = r.id;
    serial_number = p.serial_number;
    model_name = or_null r.model_name p.model_name;
    status = r.status;
    site_id = r.site_id;
    is_connected = is_connected ready r.id m;
    connectors = map (λ x. (x.connector_id, x.current_status)) connectors;
  }

  view_station : Provisioning → Option Station → Service StationView
  view_station p none = refuse no_station
  view_station p (some r) = do
    connectors ← λ s. reads (c.client.find_many (connector_of r.id) s.connectors) s
    give (view_of p r connectors)

  view_provisioned : Provisioning → Option String → Service StationView
  unfolding view_station
  view_provisioned p none = refuse no_station
  view_provisioned p (some id) = do
    found ← λ s. reads (c.client.find_first (is_station id) s.stations) s
    view_station p found

  view_matches : List Provisioning → Service StationView
  unfolding view_provisioned
  view_matches [] = refuse no_station
  view_matches (p ∷ q ∷ rest) = refuse (bad_request "station:ambiguousSerial")
  view_matches (p ∷ []) =
      if is_barred p.status
      then refuse (forbidden "station:revoked")
      else view_provisioned p (or_text p.station_id none)

  abbrev or_suffix : String → List Provisioning → Service (List Provisioning)
  or_suffix serial [] s =
      reads (c.client.find_many (λ r. ends r.serial_number serial) s.provisioning) s
  or_suffix serial (p ∷ rest) s = done (p ∷ rest) s

  pub find_by_serial : String → Service StationView
  unfolding view_matches
  find_by_serial serial = do
    exact ← λ s. reads (c.client.find_many (has_serial serial) s.provisioning) s
    matches ← or_suffix serial exact
    view_matches matches
