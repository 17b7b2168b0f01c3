-- ===== src/Services/Provision.antt =====
-- packages/core/src/services/provision.service.ts: a charger's serial number is registered, and
-- later exchanged for a station id and a password.
pub mod Laws
pub mod Connects
use Prim.Native.String.{◌++◌}
use Prim.Native.Nat.{◌%◌}
use pvpentech_core.Common.{
  ℕ, zero, suc, ◌+◌, ◌-◌, ◌/◌, String, Bool, true, false, not, ◌||◌, List, [], ◌∷◌, Option, none,
  some, str_eq, ltb, ◌==◌, or_else, is_some, if◌then◌else◌,
}
use pvpentech_core.Connections.{SocketCall, force_disconnect}
use pvpentech_core.Database.Rows.{
  Station, offline, Provisioning, ProvisioningStatus, registered, provisioned, rejected, revoked,
  StationIdSequence,
}
use pvpentech_core.Database.Monad.{Db, Context}
use pvpentech_core.Server.{Server}
use pvpentech_core.Services.{
  Failure, not_found, conflict, forbidden, database, Outcome, done, refused, Service, give, refuse,
  ◌>>=◌, ◌>>◌, atomically, reads, writes, answers,
}
use pvpentech_core.Transactions.Start.{is_station}

-- The random password of `generateRandomPassword`, `hashPassword` (bcrypt), and the setting
-- `CSMS_SERVER_URL`.
pub record Issuer : Type 0 where
  pub password : String
  pub hash : String → String
  pub server_url : String

abbrev digit : ℕ → String
digit n =
    if n == 0
    then "0"
    else if n == 1
    then "1"
    else if n == 2
    then "2"
    else if n == 3
    then "3"
    else if n == 4
    then "4"
    else if n == 5
    then "5"
    else if n == 6
    then "6"
    else if n == 7
    then "7"
    else if n == 8
    then "8"
    else "9"

-- `n.toString().padStart(width, '0')`: at least `width` digits, and as many more as there are. The
-- fuel is `n`, which is more than its digits.
unfoldable pub decimal : ℕ → ℕ → ℕ → String
decimal zero width n = ""
decimal (suc fuel) width n =
    let rest = decimal fuel (width - 1) (n / 10) in
    if (ltb 0 n || ltb 0 width) then rest ++ digit (n % 10) else ""

-- A charger's id: "EN" and the number with at least 7 digits.
unfoldable pub station_name : ℕ → String
unfolding decimal
station_name n = "EN" ++ decimal (n + 8) 7 n

pub record ProvisionResult : Type 0 where
  pub station_id : String
  pub csms_server : String
  pub uri : String
  pub port : ℕ
  pub password : String

-- What `provision` answers with, and whether the serial number had been exchanged before.
pub record Provisioned : Type 0 where
  pub result : ProvisionResult
  pub reprovisioned : Bool

abbrev pub has_serial : String → Provisioning → Bool
has_serial serial r = str_eq r.serial_number serial

abbrev same_id : Option ℕ → ℕ → Bool
same_id none n = false
same_id (some m) n = m == n

-- `manufacturerId !== undefined && record.manufacturerId !== manufacturerId`
abbrev pub is_foreign : Option ℕ → Provisioning → Bool
is_foreign none r = false
is_foreign (some m) r = not (same_id r.manufacturer_id m)

abbrev pub is_barred : ProvisioningStatus → Bool
is_barred rejected = true
is_barred revoked = true
is_barred _ = false

abbrev is_provisioned : ProvisioningStatus → Bool
is_provisioned provisioned = true
is_provisioned _ = false

-- `a || b` of texts: an empty text counts as none.
abbrev pub or_text : Option String → Option String → Option String
or_text none b = b
or_text (some a) b = if str_eq a "" then b else some a

abbrev is_sequence : StationIdSequence → Bool
is_sequence r = r.id == 1

abbrev first_number : StationIdSequence
first_number = record { id = 1; last_number = 1000001 }

abbrev next_number : StationIdSequence → StationIdSequence
next_number r = record r { last_number = r.last_number + 1 }

abbrev pub unregistered : Failure
unregistered = not_found "station:provisionRejected"

abbrev pub barred : Failure
barred = forbidden "station:provisionRejected"

module _ (c : Context) (x : Issuer) where
  generate_station_id : Service String
  generate_station_id s =
      (do
        row ← λ s.
            answers (c.client.upsert_row is_sequence next_number first_number s.sequences)
              (λ t. record s { sequences = t }) s
        give (station_name row.last_number))
        s

  -- `record.stationId || record.clientId || await this.generateStationId()`
  choose_id : Option String → Service String
  unfolding generate_station_id
  choose_id (some id) s = done id s
  choose_id none s = generate_station_id s

  -- A `|| undefined` model leaves the column out.
  abbrev pub with_model : Option String → Option String → Option String
  with_model none old = old
  with_model (some model) old = some model

  module _ (serial : String) (model : Option String) (manufacturer_id : Option ℕ) where
    -- `model || record.modelName || undefined`
    abbrev pub resolved_model : Provisioning → Option String
    resolved_model r = or_text model (or_text r.model_name none)

    abbrev pub new_station : Provisioning → String → Station
    new_station r id = record {
      id = id;
      model_name = resolved_model r;
      vendor_name = none;
      firmware_version = none;
      firmware_status = none;
      diagnostics_status = none;
      serial_number = some serial;
      password_hash = some (x.hash x.password);
      status = offline;
      last_heartbeat_at = none;
      site_id = none;
      manufacturer = none;
      charging_kwh = r.charging_kwh;
    }

    abbrev pub rotated : Provisioning → Station → Station
    rotated r st = record st {
      password_hash = some (x.hash x.password);
      model_name = with_model (resolved_model r) st.model_name;
    }

    abbrev pub exchanged : String → Provisioning → Provisioning
    exchanged id r = record r {
      station_id = some id;
      status = provisioned;
      provisioned_at = some c.now;
    }

    -- The id that the record has already, if any.
    abbrev pub known_id : Provisioning → Option String
    known_id r = or_text r.station_id (or_text r.client_id none)

    -- The `$transaction`.
    issue : Provisioning → String → Service (Unit {0})
    issue r id = do
      λ s.
          writes (c.client.upsert (is_station id) (rotated r) (new_station r id) s.stations)
            (λ t. record s { stations = t }) s
      λ s.
          answers (c.client.update (has_serial serial) (exchanged id) s.provisioning)
            (λ t. record s { provisioning = t }) s
      give tt

    abbrev pub result_of : String → ProvisionResult
    result_of id = record {
      station_id = id;
      csms_server = x.server_url;
      uri = "/ws/";
      port = 443;
      password = x.password;
    }

    provision_record : Provisioning → Service Provisioned
    unfolding issue choose_id
    provision_record r = do
      id ← choose_id (known_id r)
      atomically (issue r id)
      give (record { result = result_of id; reprovisioned = is_provisioned r.status })

    check_record : Option Provisioning → Service Provisioned
    unfolding provision_record
    check_record none = refuse unregistered
    check_record (some r) =
        if is_foreign manufacturer_id r
        then refuse unregistered
        else if is_barred r.status
        then refuse barred
        else provision_record r

    -- All of `provision` but the end of the old charger's connection.
    pub provision_db : Service Provisioned
    unfolding check_record
    provision_db = do
      found ← λ s. reads (c.client.find_first (has_serial serial) s.provisioning) s
      check_record found

    -- The old charger's connection ends when its serial number is exchanged again.
    abbrev end_old : Provisioned → Server → Server × List SocketCall
    end_old a s =
        if a.reprovisioned
        then (
          record s { connections = (force_disconnect a.result.station_id s.connections).0 },
          (force_disconnect a.result.station_id s.connections).1,
        )
        else (s, [])

    abbrev finish : Outcome Provisioned → Server → Option ProvisionResult × Server × List SocketCall
    finish (done a t) s =
        let (ended, calls) = end_old a (record s { db = t }) in (some a.result, ended, calls)
    finish (refused e t) s = (none, record s { db = t }, [])

    pub provision : Server → Option ProvisionResult × Server × List SocketCall
    provision s = finish (provision_db s.db) s
