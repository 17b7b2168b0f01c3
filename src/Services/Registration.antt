-- ===== src/Services/Registration.antt =====
-- packages/core/src/services/provision.service.ts: the registrations of serial numbers.
pub mod Bulk
use pvpentech_core.Common.{
  ℕ, zero, suc, ◌+◌, ◌==◌, ◌&&◌, String, Bool, true, false, List, [], ◌∷◌, ◌++◌, Option, none, some,
  str_eq, is_some, lookup, insert, if◌then◌else◌,
}
use pvpentech_core.Database.Rows.{
  Station, offline, Provisioning, ProvisioningStatus, registered, provisioned, revoked,
  Manufacturer,
}
use pvpentech_core.Database.Monad.{Db, Context}
use pvpentech_core.Services.{
  over, over_null, set_number, Failure, not_found, conflict, database, Outcome, done, refused,
  Service, give, refuse, ◌>>=◌, ◌>>◌, atomically, reads, writes, answers,
}
use pvpentech_core.Services.Provision.{has_serial, or_text}
use pvpentech_core.Services.Stations.{provisioning_of}
use pvpentech_core.Transactions.Start.{is_station}

-- The arguments of `register`.
pub record Registration : Type 0 where
  pub serial_number : String
  pub registered_by : String
  pub model_name : Option String
  pub client_id : Option String
  pub site_id : Option ℕ
  pub manufacturer_id : Option ℕ
  pub charging_kwh : Option ℕ

pub record UpdateRegistration : Type 0 where
  pub serial_number : Option String
  pub reject_reason : Option String
  pub charging_kwh : Option ℕ

-- The schema's charging power of 3.5.
abbrev or_default : Option ℕ → ℕ
or_default none = 350
or_default (some n) = n

abbrev pub has_registration : ℕ → Provisioning → Bool
has_registration id r = r.id == id

abbrev is_set : Option String → Bool
is_set text = is_some (or_text text none)

abbrev is_provisioned : ProvisioningStatus → Bool
is_provisioned provisioned = true
is_provisioned _ = false

-- A row of an import. A charging power that is not finite or negative is `some none`.
pub record ImportRow : Type 0 where
  pub serial_number : Option String
  pub channel_id : Option String
  pub charging_kwh : Option (Option ℕ)

pub record Imported : Type 0 where
  pub registered : ℕ
  pub skipped : ℕ
  pub errors : List (String × String)

abbrev pub has_channel : String → Manufacturer → Bool
has_channel channel r = str_eq r.channel_id channel

abbrev found_id : Option Manufacturer → Option ℕ
found_id none = none
found_id (some r) = some r.id

module _ (c : Context) where
  abbrev pub new_registration : Registration → Option String → ℕ → Provisioning
  new_registration q client id = record {
    id = id;
    serial_number = q.serial_number;
    model_name = or_text q.model_name none;
    client_id = client;
    station_id = client;
    status = registered;
    registered_by = some q.registered_by;
    provisioned_at = none;
    reject_reason = none;
    manufacturer_id = set_number q.manufacturer_id;
    charging_kwh = or_default q.charging_kwh;
  }

  abbrev pub new_client_station : Registration → String → Station
  new_client_station q id = record {
    id = id;
    model_name = or_text q.model_name none;
    vendor_name = none;
    firmware_version = none;
    firmware_status = none;
    diagnostics_status = none;
    serial_number = some q.serial_number;
    password_hash = none;
    status = offline;
    last_heartbeat_at = none;
    site_id = set_number q.site_id;
    manufacturer = none;
    charging_kwh = or_default q.charging_kwh;
  }

  create_registration : Registration → Option String → Service Provisioning
  create_registration q client s =
      answers (c.client.create (λ r. r.id) (new_registration q client) s.provisioning)
        (λ t. record s { provisioning = t }) s

  create_station : Registration → String → Service Station
  create_station q id s =
      answers (c.client.create (λ _. 0) (λ _. new_client_station q id) s.stations)
        (λ t. record s { stations = t }) s

  -- With a client id the station is there at once, without a password.
  register_client : Registration → Option String → Service Provisioning
  unfolding create_registration create_station
  register_client q none = create_registration q none
  register_client q (some id) = do
    existing ← λ s. reads (c.client.find_first (is_station id) s.stations) s
    (if is_some existing then refuse (conflict "") else give tt)
    atomically (create_station q id >> create_registration q (some id))

  pub register : Registration → Service Provisioning
  unfolding register_client
  register q = do
    existing ← λ s. reads (c.client.find_first (has_serial q.serial_number) s.provisioning) s
    (if is_some existing then refuse (conflict "") else give tt)
    register_client q (or_text q.client_id none)

  pub find_by_id : ℕ → Service Provisioning
  find_by_id id = do
    found ← λ s. reads (c.client.find_first (has_registration id) s.provisioning) s
    elim found [ none ↦ refuse (not_found "") | some r ↦ give r ]

  pub find_by_station_id : String → Service (Option Provisioning)
  find_by_station_id station s =
      reads (c.client.find_first (provisioning_of station) s.provisioning) s

  abbrev pub updated : UpdateRegistration → Provisioning → Provisioning
  updated d r = record r {
    serial_number = over d.serial_number r.serial_number;
    reject_reason = over_null d.reject_reason r.reject_reason;
    charging_kwh = over d.charging_kwh r.charging_kwh;
  }

  set_registration : ℕ → (Provisioning → Provisioning) → Service Provisioning
  set_registration id f s =
      answers (c.client.update (has_registration id) f s.provisioning)
        (λ t. record s { provisioning = t }) s

  pub update : ℕ → UpdateRegistration → Service Provisioning
  unfolding find_by_id set_registration
  update id d = do
    r ← find_by_id id
    (if is_set d.serial_number && is_provisioned r.status then refuse (conflict "") else give tt)
    set_registration id (updated d)

  pub revoke : ℕ → Service Provisioning
  unfolding find_by_id set_registration
  revoke id = do find_by_id id; set_registration id (λ r. record r { status = revoked })

  pub delete : ℕ → Service (Unit {0})
  unfolding find_by_id
  delete id = do
    find_by_id id
    λ s.
        writes (c.client.delete (has_registration id) s.provisioning)
          (λ t. record s { provisioning = t }) s

  pub delete_by_station_id : String → Service (Unit {0})
  unfolding find_by_station_id
  delete_by_station_id station = do
    found ← find_by_station_id station
    (if is_some found then give tt else refuse (not_found ""))
    λ s.
        writes (c.client.delete (provisioning_of station) s.provisioning)
          (λ t. record s { provisioning = t }) s

  -- `trim` of the language, and the message of an error.
  module _ (trim : String → String) (reason : Failure → String) (registered_by : String) where
    -- The manufacturers that were looked up, by channel ids. (A channel id is taken to be no name
    -- that every object of the language has.)
    abbrev pub Cache : Type 0
    Cache = List (String × Option ℕ)

    -- The manufacturer of a channel, and the cache after it was looked up.
    look_up : String → Cache → Service (Option ℕ × Cache)
    look_up channel cache s = elim (lookup channel cache) [
      | some id ↦ done (id, cache) s
      | none ↦ elim (c.client.find_first (has_channel channel) s.manufacturers) [
        | none ↦ refused database s
        | some found ↦ done (found_id found, insert channel (found_id found) cache) s
      ]
    ]

    manufacturer_of : Option String → Cache → Service (Option ℕ × Cache)
    unfolding look_up
    manufacturer_of none cache = give (none, cache)
    manufacturer_of (some channel) cache =
        if str_eq channel "" then give (none, cache) else look_up (trim channel) cache

    abbrev import_of : String → Option ℕ → Option ℕ → Registration
    import_of serial manufacturer kwh = record {
      serial_number = serial;
      registered_by = registered_by;
      model_name = none;
      client_id = none;
      site_id = none;
      manufacturer_id = manufacturer;
      charging_kwh = kwh;
    }

    abbrev one_more : Imported → Imported
    one_more a = record a { registered = suc a.registered }

    abbrev skip : Imported → Imported
    skip a = record a { skipped = suc a.skipped }

    abbrev fail : String → String → Imported → Imported
    fail serial text a = record a {
      skipped = suc a.skipped;
      errors = a.errors ++ (serial, text) ∷ [];
    }

    counted : String → Outcome Provisioning → Imported → Imported × Db
    counted serial (done _ t) a = (one_more a, t)
    counted serial (refused e t) a = (fail serial (reason e) a, t)

    import_power : String → Option ℕ → Option (Option ℕ) → Imported → Db → Imported × Db
    unfolding counted
    import_power serial manufacturer (some none) a s = (fail serial "chargingKwh" a, s)
    import_power serial manufacturer none a s =
        counted serial (register (import_of serial manufacturer none) s) a
    import_power serial manufacturer (some (some kwh)) a s =
        counted serial (register (import_of serial manufacturer (some kwh)) s) a

    import_known :
        String → ImportRow → Outcome (Option ℕ × Cache) → Cache → Imported → Imported × Cache × Db
    unfolding import_power
    import_known serial row (refused e t) cache a = (fail serial (reason e) a, cache, t)
    import_known serial row (done (manufacturer, after) t) cache a =
        let (b, u) = import_power serial manufacturer row.charging_kwh a t in (b, after, u)

    import_serial : String → ImportRow → Cache → Imported → Db → Imported × Cache × Db
    unfolding import_known manufacturer_of
    import_serial serial row cache a s =
        if str_eq serial ""
        then (skip a, cache, s)
        else import_known serial row (manufacturer_of row.channel_id cache s) cache a

    import_row : ImportRow → Cache → Imported → Db → Imported × Cache × Db
    unfolding import_serial
    import_row row cache a s = elim row.serial_number [
      | none ↦ (skip a, cache, s)
      | some serial ↦ import_serial (trim serial) row cache a s
    ]

    import_rows : List ImportRow → Cache → Imported → Db → Imported × Db
    unfolding import_row
    import_rows [] cache a s = (a, s)
    import_rows (row ∷ rows) cache a s =
        let (b, after, t) = import_row row cache a s in import_rows rows after b t

    pub bulk_register : List ImportRow → Db → Imported × Db
    unfolding import_rows
    bulk_register rows s =
        import_rows rows [] (record { registered = 0; skipped = 0; errors = [] }) s
