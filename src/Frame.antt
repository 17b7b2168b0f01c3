-- ===== src/Frame.antt =====
-- packages/core/src/ocpp/messageParser.ts: the three kinds of OCPP frames, read and written.
pub mod RoundTrip
use Prim.Native.String.{◌++◌}
use pvpentech_core.Common.{
  ℕ, String, Bool, true, false, List, [], ◌∷◌, Option, none, some, ltb, ◌==◌, if◌then◌else◌,
}
use pvpentech_core.Value.{
  Value, undefined, null, bool, num, str, arr, obj, Items, nil, cons, Fields, end, items,
  count_items, item, or_empty, Json, to_text,
}

-- A frame after the casts of the parser, which check nothing: the parts are values of any kind.
pub data Message : Type 0 where
  call : (message_id action payload : Value) → Message
  call_result : (message_id payload : Value) → Message
  call_error : (message_id error_code error_description error_details : Value) → Message

-- The message of the error that the parser throws.
pub data Parsed : Type 0 where
  frame : Message → Parsed
  failed : String → Parsed

abbrev is_num : Value → ℕ → Bool
is_num (num n) k = n == k
is_num _ k = false

-- The `switch` over `messageTypeId`, whose cases compare by `===`.
read_frame : Json → Items → Parsed
read_frame js parts =
    let kind = item parts 0 in
    if is_num kind 2
    then frame (call (item parts 1) (item parts 2) (or_empty (item parts 3)))
    else if is_num kind 3
    then frame (call_result (item parts 1) (or_empty (item parts 2)))
    else if is_num kind 4
    then frame (call_error (item parts 1) (item parts 2) (item parts 3) (or_empty (item parts 4)))
    else failed ("Unknown message type: " ++ to_text js kind)

check_frame : Json → Value → Parsed
unfolding read_frame
check_frame js (arr parts) =
    if ltb (count_items parts) 3 then failed "Invalid OCPP message format" else read_frame js parts
check_frame js _ = failed "Invalid OCPP message format"

unfoldable pub parse_ocpp_message : Json → String → Parsed
unfolding check_frame
parse_ocpp_message js raw = elim (js.parse raw) [
  | none ↦ failed "Invalid JSON"
  | some parsed ↦ check_frame js parsed
]

abbrev pub call_result_value : Value → Value → Value
call_result_value message_id payload = arr (items (num 3 ∷ message_id ∷ payload ∷ []))

abbrev pub call_error_value : Value → String → String → Value
call_error_value message_id code description =
    arr (items (num 4 ∷ message_id ∷ str code ∷ str description ∷ obj end ∷ []))

abbrev pub call_value : Value → Value → Value → Value
call_value message_id action payload = arr (items (num 2 ∷ message_id ∷ action ∷ payload ∷ []))

unfoldable pub serialize_call_result : Json → Value → Value → String
serialize_call_result js message_id payload = js.stringify (call_result_value message_id payload)

unfoldable pub serialize_call_error : Json → Value → String → String → String
serialize_call_error js message_id code description =
    js.stringify (call_error_value message_id code description)

unfoldable pub serialize_call : Json → Value → Value → Value → String
serialize_call js message_id action payload = js.stringify (call_value message_id action payload)
