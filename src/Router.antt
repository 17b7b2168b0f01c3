-- ===== src/Router.antt =====
-- packages/core/src/ocpp/messageRouter.ts: one frame from a charger, its reply and what is logged.
pub mod Replies
use Prim.Native.String.{◌++◌}
use text.Mathlib.Text.{find?}
use pvpentech_core.Common.{
  ℕ, String, Bool, true, false, List, [], ◌∷◌, ◌||◌, Option, none, some, is_some, or_else,
  if◌then◌else◌,
}
use mathlib.Core.List
use pvpentech_core.Value.{Value, undefined, null, bool, num, str, arr, obj, Json, to_text}
use pvpentech_core.Frame.{
  Message, call, call_result, call_error, Parsed, frame, failed, parse_ocpp_message,
  serialize_call_result, serialize_call_error,
}
use pvpentech_core.Schema.{validate}

-- What a handler's promise comes to, with the state after it. An error that is no `Error` has no
-- message.
pub data Answer (S : Type 0) : Type 0 where
  returned : Value → S → Answer S
  threw : Option String → S → Answer S

-- `OcppHandler`, and `handlerMap`.
abbrev pub Handler : Type 0 → Type 0
Handler S = String → Value → S → Answer S

abbrev pub Handlers : Type 0 → Type 0
Handlers S = String → Option (Handler S)

pub record LogEntry : Type 0 where
  pub direction : ℕ
  pub message_id : Value
  pub action : Option Value
  pub inbound : Bool
  pub raw : String

-- What one run of `handle` does outside itself, in the order in which it is called for.
pub data Effect : Type 0 where
  delivered : String → Effect
  recorded : LogEntry → Effect
  resolved : Value → Value → Effect
  rejected : Value → String → Effect

-- What surrounds one run: the language's JSON, whether the socket takes the n-th frame that is
-- sent and the message of the error that it throws if not, and whether the station is found when
-- a message is logged (a failing query counts as not found).
pub record Wire : Type 0 where
  pub js : Json
  pub accepts : ℕ → Bool
  pub send_error : Option String
  pub known : Bool

abbrev includes : String → String → Bool
includes s piece = is_some (find? s piece)

unfoldable pub classify_ocpp_error : Option String → String × String
classify_ocpp_error none = ("InternalError", "Internal server error")
classify_ocpp_error (some message) =
    if includes message "JSON"
    then ("ProtocolError", "Invalid JSON format")
    else if includes message "Schema" || includes message "Missing required"
    then ("FormationViolation", "Schema validation failed")
    else if includes message "NotImplemented"
    then ("NotImplemented", message)
    else ("InternalError", "Internal server error")

module _ (w : Wire) where
  -- `persist`: nothing is stored for a station that is not in the database.
  persist : LogEntry → List Effect
  persist entry = if w.known then recorded entry ∷ [] else []

  log_inbound : Message → String → List Effect
  log_inbound (call m action payload) raw =
      persist
        (record { direction = 2; message_id = m; action = some action; inbound = true; raw = raw })
  log_inbound (call_result m payload) raw =
      persist (record { direction = 3; message_id = m; action = none; inbound = true; raw = raw })
  log_inbound (call_error m code description details) raw =
      persist (record { direction = 4; message_id = m; action = none; inbound = true; raw = raw })

  -- `sendAndLog`, the n-th send of this run; `none` when the socket throws.
  send_and_log : ℕ → String → ℕ → Value → Option Value → Option (List Effect)
  send_and_log n raw direction m action =
      if w.accepts n
      then some (
          delivered raw
          ∷ persist (record {
            direction = direction;
            message_id = m;
            action = action;
            inbound = false;
            raw = raw;
          }))
      else none

  -- The `catch` of `handle`, whose own send is the n-th.
  catch_error : ℕ → Value → Option Value → Option String → List Effect
  unfolding classify_ocpp_error
  catch_error n m action error =
      let (code, description) = classify_ocpp_error error in
      or_else (send_and_log n (serialize_call_error w.js m code description) 4 m action) []

  -- A reply that the socket refuses is answered by the `catch`.
  reply : String → ℕ → Value → Option Value → List Effect
  reply raw direction m action = elim (send_and_log 0 raw direction m action) [
    | some effects ↦ effects
    | none ↦ catch_error 1 m action w.send_error
  ]

-- `schemaValidator.validate(action, payload)`
abbrev pub validation_error : Value → Value → Option String
validation_error (str s) payload = validate s payload
validation_error _ payload = none

abbrev pub handler_of : {S : Type 0} → Handlers S → Value → Option (Handler S)
handler_of handlers (str s) = handlers s
handler_of handlers _ = none

pub record Handled (S : Type 0) : Type 0 where
  pub effects : List Effect
  pub state : S

module _ {S : Type 0} (w : Wire) (handlers : Handlers S) (station : String) where
  -- The answer of the handler, turned into the reply.
  finish_call : Value → Value → Answer S → Handled S
  finish_call m action (returned v s) = record {
    effects = reply w (serialize_call_result w.js m v) 3 m (some action);
    state = s;
  }
  finish_call m action (threw error s) = record {
    effects = catch_error w 0 m (some action) error;
    state = s;
  }

  run_handler : Value → Value → Value → Option (Handler S) → S → Handled S
  unfolding finish_call
  run_handler m action payload (some handler) s = finish_call m action (handler station payload s)
  run_handler m action payload none s = record {
    effects =
        reply w
          (serialize_call_error w.js m "NotImplemented"
            ("Action " ++ to_text w.js action ++ " not supported"))
          4 m (some action);
    state = s;
  }

  handle_call : Value → Value → Value → Option String → S → Handled S
  unfolding run_handler
  handle_call m action payload (some error) s = record {
    effects = reply w (serialize_call_error w.js m "FormationViolation" error) 4 m (some action);
    state = s;
  }
  handle_call m action payload none s = run_handler m action payload (handler_of handlers action) s

  -- The three kinds of message, after the inbound one is logged.
  route : Message → S → Handled S
  unfolding handle_call
  route (call m action payload) s = handle_call m action payload (validation_error action payload) s
  route (call_result m payload) s = record { effects = resolved m payload ∷ []; state = s }
  route (call_error m code description details) s = record {
    effects = rejected m (to_text w.js code ++ ": " ++ to_text w.js description) ∷ [];
    state = s;
  }

  handle_parsed : Parsed → String → S → Handled S
  unfolding route
  handle_parsed (frame message) raw s =
      let rest = route message s in
      record { effects = List.◌++◌ (log_inbound w message raw) rest.effects; state = rest.state }
  handle_parsed (failed error) raw s = record {
    effects = catch_error w 0 (str "unknown") none (some error);
    state = s;
  }

  pub handle : String → S → Handled S
  unfolding handle_parsed
  handle raw s = handle_parsed (parse_ocpp_message w.js raw) raw s
