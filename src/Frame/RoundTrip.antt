-- ===== src/Frame/RoundTrip.antt =====
-- Reading back what the serializers of messageParser.ts write, and what the parser accepts.
use pvpentech_core.Common.{
  ◌≤◌, ◌≡◌, ◌↔◌, Option-cases, ap, ◌∙◌, inl, inr, refl, String, some, arith,
}
use pvpentech_core.Value.{
  Value, undefined, null, bool, num, str, arr, obj, Items, end, count_items, item, or_empty, Json,
}
use pvpentech_core.Frame.{
  Message, call, call_result, call_error, frame, parse_ocpp_message, check_frame, read_frame,
  call_result_value, call_error_value, call_value, serialize_call_result, serialize_call_error,
  serialize_call,
}

-- What the code relies on of `JSON`: reading a written value gives the value.
abbrev pub IsRead : Json → Value → Type 0
IsRead js v = js.parse (js.stringify v) ≡ some v

-- A payload that is neither `null` nor `undefined`.
abbrev pub IsPresent : Value → Type 0
IsPresent v = or_empty v ≡ v

-- Where JSON reads back the three frames, the parser returns the parts that each of the three
-- serializers was given: message id, action and payload of a call, message id and payload of a
-- result, message id, code and description (with empty details) of an error. The payload is
-- neither null nor undefined.
pub parse-serialize :
    (js : Json) (message_id action payload : Value) (code description : String)
    → IsRead js (call_value message_id action payload)
    → IsRead js (call_result_value message_id payload)
    → IsRead js (call_error_value message_id code description)
    → IsPresent payload
    → (parse_ocpp_message js (serialize_call js message_id action payload)
        ≡ frame (call message_id action payload))
      × (parse_ocpp_message js (serialize_call_result js message_id payload)
          ≡ frame (call_result message_id payload))
      × (parse_ocpp_message js (serialize_call_error js message_id code description)
          ≡ frame (call_error message_id (str code) (str description) (obj end)))
unfolding parse_ocpp_message serialize_call serialize_call_result serialize_call_error
parse-serialize js m a p c d h1 h2 h3 q = (ground arith, ground arith, ground arith)

-- A frame that the array's parts stand for: the type in place 0 is 2, 3 or 4, and a missing
-- payload is the empty object.
pub data IsFrame (parts : Items) (m : Message) : Type 0 where
  is_call :
      item parts 0 ≡ num 2
      → m ≡ call (item parts 1) (item parts 2) (or_empty (item parts 3))
      → IsFrame parts m
  is_result :
      item parts 0 ≡ num 3
      → m ≡ call_result (item parts 1) (or_empty (item parts 2))
      → IsFrame parts m
  is_error :
      item parts 0 ≡ num 4
      → m ≡ call_error (item parts 1) (item parts 2) (item parts 3) (or_empty (item parts 4))
      → IsFrame parts m

read_frame_sound :
    (js : Json) (parts : Items) (kind : Value) (m : Message)
    → item parts 0 ≡ kind
    → read_frame js parts ≡ frame m
    → IsFrame parts m
unfolding read_frame
read_frame_sound js parts (num n) m e h = ground arith
read_frame_sound js parts undefined m e h = ground arith
read_frame_sound js parts null m e h = ground arith
read_frame_sound js parts (bool b) m e h = ground arith
read_frame_sound js parts (str b) m e h = ground arith
read_frame_sound js parts (arr b) m e h = ground arith
read_frame_sound js parts (obj b) m e h = ground arith

read_frame_complete :
    (js : Json) (parts : Items) (m : Message) → IsFrame parts m → read_frame js parts ≡ frame m
unfolding read_frame
read_frame_complete js parts m (is_call k e) = ground arith
read_frame_complete js parts m (is_result k e) = ground arith
read_frame_complete js parts m (is_error k e) = ground arith

check_frame_sound :
    (js : Json) (v : Value) (m : Message)
    → check_frame js v ≡ frame m
    → (parts : Items) × (v ≡ arr parts) × (3 ≤ count_items parts) × IsFrame parts m
unfolding check_frame
check_frame_sound js (arr parts) m h =
    (parts, refl, ground arith, read_frame_sound js parts (item parts 0) m refl (ground arith))
check_frame_sound js undefined m h = cc
check_frame_sound js null m h = cc
check_frame_sound js (bool _) m h = cc
check_frame_sound js (num _) m h = cc
check_frame_sound js (str _) m h = cc
check_frame_sound js (obj _) m h = cc

parse_sound :
    (js : Json) (raw : String) (m : Message)
    → parse_ocpp_message js raw ≡ frame m
    → (parts : Items) × (js.parse raw ≡ some (arr parts))
      × (3 ≤ count_items parts)
      × IsFrame parts m
unfolding parse_ocpp_message
parse_sound js raw m h = elim (Option-cases (js.parse raw)) [
  | inl e ↦ ground arith
  | inr found ↦
      let (parts, same, long, shape) = check_frame_sound js found.0 m (ground (arith, found.1)) in
      (parts, found.1 ∙ ap some same, long, shape)
]

parse_complete :
    (js : Json) (raw : String) (m : Message) (parts : Items)
    → js.parse raw ≡ some (arr parts)
    → 3 ≤ count_items parts
    → IsFrame parts m
    → parse_ocpp_message js raw ≡ frame m
unfolding parse_ocpp_message check_frame
parse_complete js raw m parts h long shape = ground (arith, read_frame_complete js parts m shape)

-- A text is read as the message `m` exactly if JSON reads it as an array of at least three parts
-- that stand for `m`; every other text makes the parser throw.
pub parse_iff :
    (js : Json) (raw : String) (m : Message)
    → (parse_ocpp_message js raw ≡ frame m) ↔ (
        (parts : Items) × (js.parse raw ≡ some (arr parts))
        × (3 ≤ count_items parts)
        × IsFrame parts m)
parse_iff js raw m = (parse_sound js raw m, λ p. parse_complete js raw m p.0 p.1 p.2 p.3)
