-- ===== src/DataTransfer.antt =====
-- packages/core/src/ocpp/handlers/dataTransfer.handler.ts: the registry of the vendors' handlers.
use Prim.Native.String
use pvpentech_core.Common.{
  String, Bool, List, ◌∷◌, Option, none, some, str_eq, or_else, lookup, insert, if◌then◌else◌, any,
}

pub data Status : Type 0 where
  accepted rejected unknown_message_id unknown_vendor_id : Status

pub record Response : Type 0 where
  pub status : Status
  pub data_text : Option String

-- `none` when the handler throws.
abbrev pub SubHandler : Type 0
SubHandler = String → Option String → Option Response

pub record Registry : Type 0 where
  pub handlers : List (String × SubHandler)
  pub known_vendor_ids : List String

pub record DataTransferPayload : Type 0 where
  pub vendor_id : String
  pub message_id : Option String
  pub data_text : Option String

unfoldable pub make_key : String → Option String → String
make_key vendor_id message_id =
    String.◌++◌ vendor_id (String.◌++◌ "::" (or_else message_id "__default__"))

abbrev pub register : String → Option String → SubHandler → Registry → Registry
register vendor_id message_id h m = record {
  handlers = insert (make_key vendor_id message_id) h m.handlers;
  known_vendor_ids = vendor_id ∷ m.known_vendor_ids;
}

abbrev or_find : Option SubHandler → Option SubHandler → Option SubHandler
or_find none fallback = fallback
or_find (some h) fallback = some h

-- `if (messageId)`: an empty text is no message id.
abbrev specific : String → Option String → Registry → Option SubHandler
specific vendor_id none m = none
specific vendor_id (some i) m =
    if str_eq i "" then none else lookup (make_key vendor_id (some i)) m.handlers

abbrev pub resolve : String → Option String → Registry → Option SubHandler
resolve vendor_id message_id m =
    or_find (specific vendor_id message_id m) (lookup (make_key vendor_id none) m.handlers)

abbrev pub is_known_vendor : String → Registry → Bool
is_known_vendor vendor_id m = any (λ v. str_eq v vendor_id) m.known_vendor_ids

abbrev pub plain : Status → Response
plain status = record { status = status; data_text = none }

abbrev pub caught : Option Response → Response
caught none = plain rejected
caught (some r) = r

abbrev pub answer : String → DataTransferPayload → Registry → Option SubHandler → Response
answer station p m (some h) = caught (h station p.data_text)
answer station p m none =
    if is_known_vendor p.vendor_id m then plain unknown_message_id else plain unknown_vendor_id

unfoldable pub data_transfer : String → DataTransferPayload → Registry → Response
data_transfer station p m = answer station p m (resolve p.vendor_id p.message_id m)
