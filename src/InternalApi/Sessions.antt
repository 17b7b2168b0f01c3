-- ===== src/InternalApi/Sessions.antt =====
-- packages/core/src/internal-api/routes/sessions.routes.ts: a session is started or stopped from
-- afar. The payload of the command is not kept with its record here, an error's text leaves
-- out the id that it names, and a session's id is a number.
pub mod Stop
use pvpentech_core.Common.{
  ℕ, zero, suc, ◌==◌, String, Bool, true, false, Option, none, some, str_eq, if◌then◌else◌,
}
use pvpentech_core.Commands.{Texts}
use pvpentech_core.Database.Rows.{Transaction, is_running}
use pvpentech_core.Database.Monad.{Db, Context}
use pvpentech_core.InternalApi.Remote.{Line, assert_station_online, send_command}
use pvpentech_core.Services.{
  Failure, bad_request, ocpp_rejected, Outcome, done, refused, Service, give, refuse, ◌>>=◌, ◌>>◌,
  reads,
}

pub record StartRequest : Type 0 where
  pub station_id : Option String
  pub connector_id : Option ℕ
  pub id_tag : Option String

pub record Started : Type 0 where
  pub station_id : String
  pub connector_id : ℕ
  pub id_tag : String
  pub status : Option String

pub record Stopped : Type 0 where
  pub session_id : ℕ
  pub station_id : String
  pub ocpp_transaction_id : ℕ
  pub status : Option String

abbrev or_one : Option ℕ → ℕ
or_one none = 1
or_one (some n) = n

abbrev is_rejected : Option String → Bool
is_rejected none = false
is_rejected (some status) = str_eq status "Rejected"

abbrev pub is_session : ℕ → Transaction → Bool
is_session id r = r.id == id

-- A text of the request that must be there, and not empty.
abbrev required : String → Option String → Service String
required name none = refuse (bad_request name)
required name (some a) = if str_eq a "" then refuse (bad_request name) else give a

module _ (c : Context) (x : Texts) (n : Line) where
  accepted : String → String → Service (Option String)
  accepted station action = do
    status ← send_command c n x station action
    (if is_rejected status then refuse ocpp_rejected else give status)

  pub start : StartRequest → Service Started
  unfolding accepted assert_station_online
  start q = do
    station ← required "stationId is required" q.station_id
    id_tag ← required "idTag is required" q.id_tag
    assert_station_online c n station
    status ← accepted station "RemoteStartTransaction"
    give (record {
      station_id = station;
      connector_id = or_one q.connector_id;
      id_tag = id_tag;
      status = status;
    })

  -- `!transaction.ocppTransactionId`: 0 counts as none.
  stop_known : ℕ → Transaction → Option ℕ → Service Stopped
  unfolding accepted
  stop_known id r (some (suc k)) = do
    status ← accepted r.station_id "RemoteStopTransaction"
    give (record {
      session_id = id;
      station_id = r.station_id;
      ocpp_transaction_id = suc k;
      status = status;
    })
  stop_known id r _ = refuse (bad_request "no OCPP transaction ID")

  stop_found : ℕ → Option Transaction → Service Stopped
  unfolding stop_known assert_station_online
  stop_found id none = refuse (bad_request "Session not found")
  stop_found id (some r) =
      if is_running r.status
      then (do assert_station_online c n r.station_id; stop_known id r r.ocpp_transaction_id)
      else refuse (bad_request "Session is not active")

  pub stop : ℕ → Service Stopped
  unfolding stop_found
  stop id = do
    found ← λ s. reads (c.client.find_first (is_session id) s.transactions) s
    stop_found id found
