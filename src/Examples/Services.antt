-- ===== src/Examples/Services.antt =====
-- The services of the administration at concrete inputs.
use Prim.Native.String.{◌++◌}
use pvpentech_core.Common.{
  Option, ◌+◌, ◌≡◌, ◌⊎◌, refl, String, Bool, true, false, List, [], ◌∷◌, none, some, arith, All,
  any, length, str_eq, insert, remove,
}
use pvpentech_core.Auth.{Secrets, upgraded, unauthorized, verify_client}
use pvpentech_core.Commands.{Texts, answered}
use pvpentech_core.Database.Rows.{Provisioning, registered, Manufacturer}
use pvpentech_core.Database.Monad.{Db}
use pvpentech_core.Database.Memory.{memory, memory-IsClient, memory-IsWorking}
use pvpentech_core.Examples.{context, db}
use pvpentech_core.Services.{Failure, done, refused, state_after}
use pvpentech_core.Services.Provision.{Issuer, Provisioned, provision_db}
use pvpentech_core.Services.Provision.Laws.{Ends, provision_db-Ends}
use pvpentech_core.Services.Provision.Connects.{Fits, verify_client-provision}
use pvpentech_core.Services.Stations.Removal
use pvpentech_core.Services.Firmwares.{Storage, Upload, upload}
use pvpentech_core.Services.Firmwares.Files.{IsStorage, IsKept}
use pvpentech_core.Services.Firmwares.Files.Runs.{Reach, start, later, uploads, Reach-IsKept}
use pvpentech_core.Services.Campaigns.{dispatch_all}
use pvpentech_core.Services.Campaigns.Dispatch.{is_wrong, dispatch_all-says}
use pvpentech_core.Services.Registration.{ImportRow, bulk_register}
use pvpentech_core.Services.Registration.Bulk.{bulk_register-counts}
use pvpentech_core.Services.Manufacturers.{Tokens}
use pvpentech_core.Services.ChargerAuth.{exchange, Exchanges, exchange-Exchanges}

abbrev issuer : Issuer
issuer = record {
  password = "secret";
  hash = λ password. "#" ++ password;
  server_url = "wss://csms.example";
}

abbrev serial_row : Provisioning
serial_row = record {
  id = 1;
  serial_number = "SN1";
  model_name = none;
  client_id = none;
  station_id = none;
  status = registered;
  registered_by = some "admin";
  provisioned_at = none;
  reject_reason = none;
  manufacturer_id = some 3;
  charging_kwh = 350;
}

abbrev maker : Manufacturer
maker = record { id = 3; channel_id = "ch"; name = "Maker"; token_hash = "token"; is_active = true }

abbrev office : Db
office = record db { provisioning = serial_row ∷ []; manufacturers = maker ∷ [] }

provision_db-Ends_example :
    Ends context memory-IsClient issuer "SN1" none
      (some 3)
      office
      (provision_db context issuer "SN1" none (some 3) office)
provision_db-Ends_example =
    provision_db-Ends context memory-IsClient issuer "SN1" none (some 3) office

abbrev hashes : Secrets
hashes = record {
  decode = λ s. s;
  compare_password = λ password hash. str_eq ("#" ++ password) hash;
}

abbrev header : Option String
header = some "Basic EN1000001:secret"

verify_client-provision_example :
    ((e : Failure) × (t : Db) × (provision_db context issuer "SN1" none (some 3) office
        ≡ refused e t))
    ⊎ ((a : Provisioned) × (t : Db) × (provision_db context issuer "SN1" none (some 3) office
          ≡ done a t)
        × (((verify_client memory hashes a.result.station_id header t.stations ≡ upgraded)
              × Fits context issuer "SN1" none
                  (some 3)
                  memory-IsClient
                  hashes
                  a.result.station_id
                  ("#" ++ a.result.password)
                  header)
            ⊎ ((verify_client memory hashes a.result.station_id header t.stations ≡ unauthorized)
                × ¬ Fits context issuer "SN1" none
                    (some 3)
                    memory-IsClient
                    hashes
                    a.result.station_id
                    ("#" ++ a.result.password)
                    header)))
verify_client-provision_example =
    verify_client-provision context issuer "SN1" none (some 3) memory-IsClient memory-IsWorking
      hashes header office (λ h. cc)

-- A directory that takes every file, and digests that are the contents.
abbrev folder : Storage
folder = record {
  write = λ name b files. some (insert name b files);
  unlink = λ name files. some (remove name files);
  sha256 = λ b. b.content;
  sanitize = λ s. s;
  cut = λ n s. s;
  encode = λ s. s;
  without_slash = λ s. s;
  max_size_mb = 64;
  base_url = "https://files.example";
}

folder-IsStorage : IsStorage folder
folder-IsStorage = record {
  write_lem = λ name b files t h. ground arith;
  unlink_lem = λ name files t h. ground arith;
}

abbrev image : Upload
image = record {
  buffer = record { content = "bytes"; length = 5 };
  original_name = "fw.bin";
  version = "1.0";
  charger_model = none;
  charger_vendor = none;
  uploaded_by = "admin";
  notes = none;
}

uploaded_run :
    Reach context memory-IsClient folder folder-IsStorage
      (state_after (upload context folder image [] db).0)
      (upload context folder image [] db).1
uploaded_run = later (start db refl) (uploads image [] db refl)

Reach-IsKept_example :
    IsKept folder
      (state_after (upload context folder image [] db).0).firmwares
      (upload context folder image [] db).1
Reach-IsKept_example = Reach-IsKept context memory-IsClient folder folder-IsStorage uploaded_run

abbrev same_texts : Texts
same_texts = record { lower = λ s. s; trim = λ s. s; cut = λ n s. s }

abbrev only_cp1 : String → Bool
only_cp1 station = str_eq station "CP1"

dispatch_all-says_example :
    All
      (λ station.
        any
          (is_wrong context memory-IsClient memory-IsWorking same_texts only_cp1
            (λ s. s)
            (λ s. answered none)
            1
            "admin"
            station)
          (dispatch_all context same_texts only_cp1
            (λ s. s)
            (λ s. answered none)
            1
            "admin"
            ("CP1" ∷ "CP2" ∷ [])
            db).progress
        ≡ false)
      ("CP1" ∷ "CP2" ∷ [])
dispatch_all-says_example =
    dispatch_all-says context memory-IsClient memory-IsWorking same_texts only_cp1 (λ s. s)
      (λ s. answered none) 1 "admin" ("CP1" ∷ "CP2" ∷ []) db

abbrev import_list : List ImportRow
import_list =
    record { serial_number = some "SN1"; channel_id = none; charging_kwh = none }
    ∷ record { serial_number = some "SN2"; channel_id = some "ch"; charging_kwh = none }
    ∷ []

bulk_register-counts_example :
    let after = bulk_register context (λ s. s) (λ e. "error") "admin" import_list office in
    (after.0.registered + after.0.skipped ≡ length import_list)
    × (length after.1.provisioning ≡ length office.provisioning + after.0.registered)
bulk_register-counts_example =
    bulk_register-counts context memory-IsClient (λ s. s) (λ e. "error") "admin" import_list office

abbrev plain_tokens : Tokens
plain_tokens = record { hash = λ s. s; compare = λ a b. str_eq a b; random = "r" }

exchange-Exchanges_example :
    Exchanges context issuer plain_tokens memory-IsClient "token" "ch"
      (some "SN1")
      (some "M1")
      office
      (exchange context issuer plain_tokens "token" "ch" (some "SN1") (some "M1") office)
exchange-Exchanges_example =
    exchange-Exchanges context issuer plain_tokens memory-IsClient "token" "ch" (some "SN1")
      (some "M1") office
