-- ===== src/InternalApi/Remote.antt =====
-- What the routes of the internal API share when they send a command: `assertStationOnline` and
-- `mapOcppError` of internal-api/routes/sessions.routes.ts and commands.routes.ts, in packages/core/src.
use Prim.Native.String.{◌++◌}
use text.Mathlib.Text.{find?}
use pvpentech_core.Common.{
  ℕ, ◌≡◌, ◌⊎◌, inl, inr, arith, Option-cases, Bool-cases, String, Bool, true, ◌||◌, Option, none,
  some, is_some, if◌then◌else◌,
}
use pvpentech_core.Commands.{Settlement, answered, failed, Texts, begin_command, finish_command}
use pvpentech_core.Connections.{Connections, ReadyState, is_connected}
use pvpentech_core.Database.Monad.{Db, Context, Run, ok, threw}
use pvpentech_core.Services.{
  Failure, database, station_not_found, station_offline, ocpp_timeout, ocpp_rejected, other_error,
  Outcome, done, refused, Service, give, refuse, ◌>>=◌, ◌>>◌, reads,
}
use pvpentech_core.Transactions.Start.{is_station}

-- The sockets, and what surrounds a command: the id that `uuid` gives it and what its promise comes
-- to.
pub record Line : Type 0 where
  pub ready : ℕ → ReadyState
  pub connections : Connections
  pub message_id : String
  pub settlement : Settlement

abbrev pub is_online : Line → String → Bool
is_online n station = is_connected n.ready station n.connections

abbrev has_text : String → String → Bool
has_text s piece = is_some (find? s piece)

-- `mapOcppError`
unfoldable pub map_ocpp_error : Texts → String → Failure
map_ocpp_error x message =
    if has_text (x.lower message) "timeout"
    then ocpp_timeout
    else if has_text (x.lower message) "rejected" || has_text (x.lower message) "not connected"
    then ocpp_rejected
    else other_error message

module _ (c : Context) (n : Line) where
  unfoldable pub assert_station_online : String → Service (Unit {0})
  assert_station_online station = do
    found ← λ s. reads (c.client.find_first (is_station station) s.stations) s
    (if is_some found then give tt else refuse station_not_found)
    (if is_online n station then give tt else refuse station_offline)

  -- `sendCommand` up to its answer, on behalf of the internal API.
  abbrev pub begun : Texts → String → String → Db → Run (Unit {0})
  begun x station action s =
      begin_command c x station action n.message_id (is_online n station) (some "internal-api") s

  abbrev pub answer_of : Texts → Settlement → Run (Unit {0}) → Outcome (Option String)
  answer_of x (answered status) (ok _ t) = done status t
  answer_of x (answered status) (threw t) = refused (other_error "") t
  answer_of x (failed message) (ok _ t) = refused (map_ocpp_error x message) t
  answer_of x (failed message) (threw t) = refused (map_ocpp_error x message) t

  unfoldable pub finished : Texts → String → String → Run (Unit {0}) → Outcome (Option String)
  finished x station action (ok _ t) =
      answer_of x n.settlement (finish_command c x station action n.message_id n.settlement t)
  finished x station action (threw t) =
      refused (map_ocpp_error x ("Station " ++ station ++ " is not connected")) t

  -- A command that is waited for: the status of its answer.
  unfoldable pub send_command : Texts → String → String → Service (Option String)
  unfolding finished
  send_command x station action s = finished x station action (begun x station action s)

  -- It changes nothing, and passes only a station that is online.
  pub assert_station_online-cases :
      (station : String) (s : Db)
      → ((e : Failure) × (assert_station_online station s ≡ refused e s))
        ⊎ ((assert_station_online station s ≡ done tt s) × (is_online n station ≡ true))
  unfolding assert_station_online
  assert_station_online-cases station s =
      elim (Option-cases (c.client.find_first (is_station station) s.stations)) [
        | inl e ↦ inl (database, ground arith)
        | inr (none, e) ↦ inl (station_not_found, ground arith)
        | inr (some r, e) ↦ elim (Bool-cases (is_online n station)) [
          | inl k ↦ inr (ground arith, k)
          | inr k ↦ inl (station_offline, ground arith)
        ]
      ]
