-- ===== src/Examples/Others.antt =====
-- The models of meter values, waiting sessions, promises and passwords at concrete inputs.
use pvpentech_core.Common.{some, ◌≡◌, ◌⊎◌, false, [], ◌∷◌, none, str_eq, any, keep}
use pvpentech_core.Database.Rows.{Station, Transaction}
use pvpentech_core.Database.Client.{Finds}
use pvpentech_core.Database.Monad.{Db, ok, threw}
use pvpentech_core.Database.Memory.{memory, memory-IsClient, memory-IsWorking}
use pvpentech_core.Transactions.Start.{is_station}
use pvpentech_core.Transactions.Stop.Laws.{lacks_samples}
use pvpentech_core.Transactions.Meter.{MeterPayload, is_charging, meter_values}
use pvpentech_core.Transactions.Meter.Laws.{records_for, Stores, meter_values-cases}
use pvpentech_core.Transactions.Timeout.{
  is_abandoned, session_timeout, still_awaited, session_timeout_lem,
}
use pvpentech_core.Auth.{
  Secrets, verify_client, server_error, unauthorized, upgraded, IsAllowed, verify_client-IsAllowed,
}
use pvpentech_core.Examples.{context, cp1, db}

abbrev meter_request : MeterPayload
meter_request = record {
  connector_id = 1;
  meter_value =
      (record {
        timestamp = "2026-01-01T00:10:00Z";
        sampled_value = some (
            record {
              value = "1500";
              measurand = none;
              unit = none;
              phase = none;
              context = none;
              format = none;
              location = none;
            }
            ∷ []);
      })
      ∷ [];
}

meter_values-cases_example :
    (meter_values context "CP1" meter_request db ≡ threw db)
    ⊎ ((meter_values context "CP1" meter_request db ≡ ok tt db)
        × (any (is_charging "CP1" 1) db.transactions ≡ false))
    ⊎ ((found : Transaction) × (t : Db) × (meter_values context "CP1" meter_request db ≡ ok tt t)
        × Finds (is_charging "CP1" 1) found db.transactions
        × (any lacks_samples meter_request.meter_value ≡ false)
        × Stores context "CP1" meter_request found
            (records_for context "CP1" meter_request found.id meter_request.meter_value)
            db
            t)
meter_values-cases_example = meter_values-cases context "CP1" meter_request memory-IsClient db

session_timeout_lem_example :
    (t : Db) × (session_timeout context db ≡ ok tt t)
    × (any (is_abandoned context) t.transactions ≡ false)
    × (keep (still_awaited context) t.transactions ≡ keep (still_awaited context) db.transactions)
session_timeout_lem_example = session_timeout_lem context memory-IsClient memory-IsWorking db

abbrev plain_secrets : Secrets
plain_secrets = record { decode = λ s. s; compare_password = λ password hash. str_eq password hash }

verify_client-IsAllowed_example :
    ((memory.find_first (is_station "CP1") (cp1 ∷ []) ≡ none)
      × (verify_client memory plain_secrets "CP1" none (cp1 ∷ []) ≡ server_error))
    ⊎ (verify_client memory plain_secrets "CP1" none (cp1 ∷ []) ≡ unauthorized)
    ⊎ ((verify_client memory plain_secrets "CP1" none (cp1 ∷ []) ≡ upgraded)
        × (r : Station) × Finds (is_station "CP1") r (cp1 ∷ [])
        × IsAllowed plain_secrets "CP1" none r)
verify_client-IsAllowed_example =
    verify_client-IsAllowed memory memory-IsClient plain_secrets "CP1" none (cp1 ∷ [])
