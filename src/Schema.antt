-- ===== src/Schema.antt =====
-- packages/core/src/ocpp/schemaValidator.ts: the required fields of each action.
pub mod Laws
use Prim.Native.String.{◌++◌}
use pvpentech_core.Common.{String, List, [], ◌∷◌, Option, none, some, str_eq, if◌then◌else◌}
use pvpentech_core.Value.{Value, prop, is_nullish}

-- `ocppSchemas`; the loop of `validate` runs over a missing entry as over no field.
unfoldable pub required_fields : String → List String
required_fields action =
    if str_eq action "BootNotification"
    then "chargePointModel" ∷ "chargePointVendor" ∷ []
    else if str_eq action "Heartbeat"
    then []
    else if str_eq action "StatusNotification"
    then "connectorId" ∷ "errorCode" ∷ "status" ∷ []
    else if str_eq action "StartTransaction"
    then "connectorId" ∷ "idTag" ∷ "meterStart" ∷ "timestamp" ∷ []
    else if str_eq action "StopTransaction"
    then "meterStop" ∷ "timestamp" ∷ "transactionId" ∷ []
    else if str_eq action "Authorize"
    then "idTag" ∷ []
    else if str_eq action "MeterValues"
    then "connectorId" ∷ "meterValue" ∷ []
    else if str_eq action "DataTransfer"
    then "vendorId" ∷ []
    else if str_eq action "FirmwareStatusNotification"
    then "status" ∷ []
    else if str_eq action "DiagnosticsStatusNotification"
    then "status" ∷ []
    else []

-- The loop of `validate`: the first required field that is undefined or null.
unfoldable pub check_fields : Value → List String → Option String
check_fields payload [] = none
check_fields payload (name ∷ names) =
    if is_nullish (prop payload name)
    then some ("Missing required field: " ++ name)
    else check_fields payload names

unfoldable pub validate : String → Value → Option String
unfolding required_fields check_fields
validate action payload = check_fields payload (required_fields action)
