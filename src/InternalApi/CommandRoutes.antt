-- ===== src/InternalApi/CommandRoutes.antt =====
-- packages/core/src/internal-api/routes/commands.routes.ts: commands whose answer is not waited for.
use pvpentech_core.Common.{
  ℕ, String, Bool, true, false, ◌||◌, not, ◌==◌, List, [], ◌∷◌, some, any, str_eq, if◌then◌else◌,
}
use pvpentech_core.Commands.{Texts, begin_command}
use pvpentech_core.Database.Monad.{Db, Context, ok, threw}
use pvpentech_core.InternalApi.Remote.{Line, assert_station_online, is_online}
use pvpentech_core.Services.{bad_request, done, refused, Service, ◌>>◌}
use pvpentech_core.Value.{
  Value, undefined, null, bool, num, str, arr, obj, Fields, field, end, prop, is_nullish, Json,
  to_text,
}

pub data Route : Type 0 where
  reset change_availability change_configuration get_configuration : Route
  clear_cache unlock_connector trigger_message data_transfer : Route

pub record Command : Type 0 where
  pub action : String
  pub payload : Value

-- What is known of a body, or the reason why it is refused.
pub data Request : Type 0 where
  wanted : Command → Request
  bad : String → Request

-- The language's `Number(value)`, and its texts.
pub record Conversions : Type 0 where
  pub number : Value → Value
  pub js : Json

abbrev is_text : String → Value → Bool
is_text s (str t) = str_eq t s
is_text s _ = false

-- `!value`, for what the routes read.
abbrev is_missing : Value → Bool
is_missing undefined = true
is_missing null = true
is_missing (bool b) = not b
is_missing (num n) = n == 0
is_missing (str s) = str_eq s ""
is_missing _ = false

abbrev is_undefined : Value → Bool
is_undefined undefined = true
is_undefined _ = false

-- `value ?? other`
abbrev or_value : Value → Value → Value
or_value v other = if is_nullish v then other else v

abbrev array_or_none : Value → Value
array_or_none (arr items) = arr items
array_or_none _ = undefined

abbrev valid_messages : List String
valid_messages =
    "BootNotification" ∷ "DiagnosticsStatusNotification" ∷ "FirmwareStatusNotification"
    ∷ "Heartbeat" ∷ "MeterValues" ∷ "StatusNotification" ∷ []

-- `validMessages.includes(value)`
pub is_requestable : Value → Bool
is_requestable (str s) = any (str_eq s) valid_messages
is_requestable _ = false

module _ (x : Conversions) where
  abbrev command : String → Fields → Request
  command action payload = wanted (record { action = action; payload = obj payload })

  pub request_of : Route → Value → Request
  unfolding is_requestable
  request_of reset body =
      command "Reset"
        (field "type" (str (if is_text "Hard" (prop body "type") then "Hard" else "Soft")) end)
  request_of change_availability body = command "ChangeAvailability" (
      field "connectorId" (x.number (or_value (prop body "connectorId") (num 0))) (
        field "type"
          (str (if is_text "Inoperative" (prop body "type") then "Inoperative" else "Operative"))
          end))
  request_of change_configuration body =
      if is_missing (prop body "key") || is_undefined (prop body "value")
      then bad "key and value are required"
      else command "ChangeConfiguration" (
          field "key" (prop body "key")
            (field "value" (str (to_text x.js (prop body "value"))) end))
  request_of get_configuration body =
      command "GetConfiguration" (field "key" (array_or_none (prop body "key")) end)
  request_of clear_cache body = command "ClearCache" end
  request_of unlock_connector body =
      command "UnlockConnector"
        (field "connectorId" (x.number (or_value (prop body "connectorId") (num 1))) end)
  request_of trigger_message body =
      if is_requestable (prop body "requestedMessage")
      then command "TriggerMessage" (
          field "requestedMessage" (prop body "requestedMessage") (
            field "connectorId"
              (if is_undefined (prop body "connectorId")
                then undefined
                else x.number (prop body "connectorId"))
              end))
      else bad "requestedMessage must be one of"
  request_of data_transfer body =
      if is_missing (prop body "vendorId")
      then bad "vendorId is required"
      else command "DataTransfer" (
          field "vendorId" (prop body "vendorId")
            (field "messageId" (prop body "messageId") (field "data" (prop body "data") end)))

-- The answer 202.
pub record Accepted : Type 0 where
  pub message_id : String
  pub action : String
  pub sent_at : ℕ

module _ (c : Context) (t : Texts) (x : Conversions) (n : Line) (response_id : String) where
  -- The command goes out as far as it gets without its answer; an error is only logged.
  go_out : String → String → Db → Db
  go_out station action s =
      elim (begin_command c t station action n.message_id (is_online n station)
        (some "internal-api") s) [ ok _ u ↦ u | threw u ↦ u ]

  -- `sendAsyncCommandResponse`, which makes an id of its own.
  send_async : String → Request → Service Accepted
  unfolding go_out
  send_async station (bad message) s = refused (bad_request message) s
  send_async station (wanted q) s =
      done (record { message_id = response_id; action = q.action; sent_at = c.now })
        (go_out station q.action s)

  pub run_command : Route → String → Value → Service Accepted
  unfolding send_async request_of assert_station_online
  run_command route station body = do
    assert_station_online c n station
    send_async station (request_of x route body)
