-- ===== src/Examples/Frames.antt =====
-- The models of the frames at concrete inputs.
use pvpentech_core.Common.{
  ◌≡◌, ◌≤◌, ◌↔◌, ℕ, refl, String, true, none, some, str_eq, ◌==◌, length, All, if◌then◌else◌,
}
use pvpentech_core.Value.{
  Value, Items, nil, cons, num, str, arr, obj, end, field, Json, count_items,
}
use pvpentech_core.Frame.{
  call, call_result, call_error, frame, parse_ocpp_message, serialize_call, serialize_call_result,
  serialize_call_error,
}
use pvpentech_core.Frame.RoundTrip.{IsFrame, parse-serialize, parse_iff}
use pvpentech_core.Router.{Handlers, returned, Wire, handle}
use pvpentech_core.Router.Replies.{frames, handle-frames_le}
use pvpentech_core.Schema.{required_fields, validate}
use pvpentech_core.Schema.Laws.{Has, validate_iff}

-- The message id "m", the action "Heartbeat" and the payload {}.
abbrev call_parts : Items
call_parts = cons (num 2) (cons (str "m") (cons (str "Heartbeat") (cons (obj end) nil)))

abbrev result_parts : Items
result_parts = cons (num 3) (cons (str "m") (cons (obj end) nil))

abbrev error_parts : Items
error_parts = cons (num 4) (cons (str "m") (cons (str "E") (cons (str "D") (cons (obj end) nil))))

abbrev text_of : Value → String
text_of (arr (cons (num n) rest)) = if n == 2 then "call" else if n == 3 then "result" else "error"
text_of _ = "other"

-- A JSON that knows the texts of these three frames only.
abbrev three_frames : Json
three_frames = record {
  parse = λ raw.
      if str_eq raw "call"
      then some (arr call_parts)
      else if str_eq raw "result"
      then some (arr result_parts)
      else if str_eq raw "error"
      then some (arr error_parts)
      else none;
  stringify = text_of;
  show = λ v. "";
}

abbrev wire : Wire
wire = record { js = three_frames; accepts = λ n. true; send_error = none; known = true }

abbrev handlers : Handlers ℕ
handlers action = some (λ station payload s. returned (obj end) s)

parse_iff_example :
    (parse_ocpp_message three_frames "call" ≡ frame (call (str "m") (str "Heartbeat") (obj end)))
    ↔ ((parts : Items) × (three_frames.parse "call" ≡ some (arr parts))
        × (3 ≤ count_items parts)
        × IsFrame parts (call (str "m") (str "Heartbeat") (obj end)))
parse_iff_example = parse_iff three_frames "call" (call (str "m") (str "Heartbeat") (obj end))

parse-serialize_example :
    (parse_ocpp_message three_frames
        (serialize_call three_frames (str "m") (str "Heartbeat") (obj end))
      ≡ frame (call (str "m") (str "Heartbeat") (obj end)))
    × (parse_ocpp_message three_frames (serialize_call_result three_frames (str "m") (obj end))
        ≡ frame (call_result (str "m") (obj end)))
    × (parse_ocpp_message three_frames (serialize_call_error three_frames (str "m") "E" "D")
        ≡ frame (call_error (str "m") (str "E") (str "D") (obj end)))
parse-serialize_example =
    parse-serialize three_frames (str "m") (str "Heartbeat") (obj end) "E" "D" refl refl refl refl

handle-frames_le_example : length (frames (handle wire handlers "CP1" "call" 5).effects) ≤ 1
handle-frames_le_example = handle-frames_le wire handlers "CP1" "call" 5

abbrev boot_payload : Value
boot_payload = obj (field "chargePointModel" (str "M") end)

validate_iff_example :
    (validate "BootNotification" boot_payload ≡ none)
    ↔ All (Has boot_payload) (required_fields "BootNotification")
validate_iff_example = validate_iff "BootNotification" boot_payload

refused :
    validate "BootNotification" boot_payload ≡ some "Missing required field: chargePointVendor"
unfolding validate
refused = refl
