-- ===== src/Services/Provision/Laws.antt =====
-- When a serial number is exchanged, and what is stored for it.
use pvpentech_core.Common.{
  ℕ, ◌≡◌, ◌⊎◌, inl, inr, refl, subst, ◌∙◌, List, String, true, false, [], ◌∷◌, ◌++◌, Option, none,
  some, arith, any, change, Bool-cases, Option-cases, if◌then◌else◌,
}
use pvpentech_core.Database.Rows.{Provisioning, provisioned, Station, StationIdSequence, offline}
use pvpentech_core.Database.Client.{IsClient, Finds}
use pvpentech_core.Database.Monad.{Db, Context}
use pvpentech_core.Services.{Failure, database, Outcome, done, refused, atomically}
use pvpentech_core.Services.Provision.{
  or_text, Issuer, Provisioned, has_serial, is_foreign, is_barred, unregistered, barred,
  generate_station_id, choose_id, known_id, new_station, rotated, exchanged, issue, result_of,
  provision_record, check_record, provision_db, is_sequence, next_number, first_number,
  is_provisioned, station_name,
}
use pvpentech_core.Transactions.Start.{is_station}

module _ (c : Context) (l : IsClient c.client) (x : Issuer) (serial : String)
    (model : Option String) (manufacturer_id : Option ℕ) where
  -- The client has rejected a call: the query for the serial number, the next number of the
  -- sequence, or one of the two writes.
  pub data Rejects : Type 0 where
    of_query : (t : List Provisioning) → c.client.find_first (has_serial serial) t ≡ none → Rejects
    of_sequence :
        (t : List StationIdSequence)
        → c.client.upsert_row is_sequence next_number first_number t ≡ none
        → Rejects
    of_station :
        (r : Provisioning) (id : String) (t : List Station)
        → c.client.upsert
            (is_station id)
            (rotated c x serial model manufacturer_id r)
            (new_station c x serial model manufacturer_id r id)
            t
          ≡ none
        → Rejects
    of_registration :
        (id : String) (t : List Provisioning)
        → c.client.update (has_serial serial) (exchanged c x serial model manufacturer_id id) t
          ≡ none
        → Rejects

  -- The reason of a refusal.
  pub data Refusal (s : Db) : Failure → Type 1 where
    unknown : any (has_serial serial) s.provisioning ≡ false → Refusal s unregistered
    foreign :
        (r : Provisioning)
        → Finds (has_serial serial) r s.provisioning
        → is_foreign manufacturer_id r ≡ true
        → Refusal s unregistered
    not_allowed :
        (r : Provisioning)
        → Finds (has_serial serial) r s.provisioning
        → is_barred r.status ≡ true
        → Refusal s barred
    rejected_call : Rejects → Refusal s database

  -- The model of the request if it is a text that is not empty, and else that of the registration.
  abbrev pub model_of : Provisioning → Option String
  model_of r = or_text model (or_text r.model_name none)

  -- The new text, or the old one if there is none.
  abbrev pub or_else_text : Option String → Option String → Option String
  or_else_text none old = old
  or_else_text (some text) old = some text

  -- The password's hash and the exchange are stored for the record that was found, under the id
  -- that it had, if it had one; the sessions stay.
  pub record IsIssued (s t : Db) (r : Provisioning) (a : Provisioned) : Type 0 where
    pub hit : Finds (has_serial serial) r s.provisioning
    pub same_manufacturer : is_foreign manufacturer_id r ≡ false
    pub allowed : is_barred r.status ≡ false
    pub same_id :
        (or_text r.station_id (or_text r.client_id none) ≡ none)
        ⊎ (or_text r.station_id (or_text r.client_id none) ≡ some a.result.station_id)
    pub password : a.result.password ≡ x.password
    pub server : a.result.csms_server ≡ x.server_url
    pub path : a.result.uri ≡ "/ws/"
    pub port : a.result.port ≡ 443
    pub again : a.reprovisioned ≡ is_provisioned r.status
    pub stations : t.stations ≡ (
        if any (is_station a.result.station_id) s.stations
        then change
            (is_station a.result.station_id)
            (λ st. record st {
              password_hash = some (x.hash x.password);
              model_name = or_else_text (model_of r) st.model_name;
            })
            s.stations
        else s.stations
          ++ record {
            id = a.result.station_id;
            model_name = model_of r;
            vendor_name = none;
            firmware_version = none;
            firmware_status = none;
            diagnostics_status = none;
            serial_number = some serial;
            password_hash = some (x.hash x.password);
            status = offline;
            last_heartbeat_at = none;
            site_id = none;
            manufacturer = none;
            charging_kwh = r.charging_kwh;
          }
            ∷ [])
    pub provisioning :
        t.provisioning
        ≡ change
            (has_serial serial)
            (λ q. record q {
              station_id = some a.result.station_id;
              status = provisioned;
              provisioned_at = some c.now;
            })
            s.provisioning
    pub transactions : t.transactions ≡ s.transactions

  -- Nothing but the sequence of station ids has changed.
  abbrev pub StaysBut : Db → Db → Type 0
  StaysBut s t =
      (t.stations ≡ s.stations)
      × (t.provisioning ≡ s.provisioning)
      × (t.transactions ≡ s.transactions)

  choose_id-cases :
      (known : Option String) (s : Db)
      → ((choose_id c x known s ≡ refused database s) × Rejects)
        ⊎ ((id : String) × (t : Db) × (choose_id c x known s ≡ done id t)
            × StaysBut s t
            × ((known ≡ none) ⊎ (known ≡ some id)))
  unfolding choose_id generate_station_id
  choose_id-cases (some id) s = inr (id, s, refl, (refl, refl, refl), inr refl)
  choose_id-cases none s =
      elim (Option-cases (c.client.upsert_row is_sequence next_number first_number s.sequences)) [
        | inl e ↦ inl (ground arith, of_sequence s.sequences e)
        | inr ((row, t), e) ↦ inr (
          station_name row.last_number,
          record s { sequences = t },
          ground arith,
          (refl, refl, refl),
          inl refl,
        )
      ]

  -- The two tables after the `$transaction`.
  abbrev Stored : Provisioning → String → Db → Db → Type 0
  Stored r id s t =
      (t.stations ≡ (
        if any (is_station id) s.stations
        then change (is_station id) (rotated c x serial model manufacturer_id r) s.stations
        else s.stations ++ new_station c x serial model manufacturer_id r id ∷ []))
      × (t.provisioning
          ≡ change (has_serial serial) (exchanged c x serial model manufacturer_id id)
              s.provisioning)
      × (t.transactions ≡ s.transactions)

  issue-cases :
      (r : Provisioning) (id : String) (s : Db)
      → ((atomically (issue c x serial model manufacturer_id r id) s ≡ refused database s)
          × Rejects)
        ⊎ ((t : Db) × (atomically (issue c x serial model manufacturer_id r id) s ≡ done tt t)
            × Stored r id s t)
  unfolding issue
  issue-cases r id s =
      let f = rotated c x serial model manufacturer_id r in
      let new = new_station c x serial model manufacturer_id r id in
      let g = exchanged c x serial model manufacturer_id id in
      elim (Option-cases (c.client.upsert (is_station id) f new s.stations)) [
        | inl e ↦ inl (ground arith, of_station r id s.stations e)
        | inr (stations, e) ↦
            elim (Option-cases (c.client.update (has_serial serial) g s.provisioning)) [
              | inl k ↦ inl (ground arith, of_registration id s.provisioning k)
              | inr ((row, rows), k) ↦
                  let (old, hit, became, shape) =
                    l.update_lem (has_serial serial) g s.provisioning rows row k in
                  inr (
                    record s { stations = stations; provisioning = rows },
                    ground arith,
                    (l.upsert_lem (is_station id) f new s.stations stations e, shape, refl),
                  )
            ]
      ]

  abbrev pub Ends : Db → Outcome Provisioned → Type 1
  Ends s end =
      ((e : Failure) × (t : Db) × (end ≡ refused e t) × StaysBut s t × Refusal s e)
      ⊎ ((r : Provisioning) × (a : Provisioned) × (t : Db) × (end ≡ done a t) × IsIssued s t r a)

  provision_record-Ends :
      (r : Provisioning) (s : Db)
      → Finds (has_serial serial) r s.provisioning
      → is_foreign manufacturer_id r ≡ false
      → is_barred r.status ≡ false
      → Ends s (provision_record c x serial model manufacturer_id r s)
  unfolding provision_record
  provision_record-Ends r s hit native allowed =
      elim (choose_id-cases (known_id c x serial model manufacturer_id r) s) [
        | inl (e, broken) ↦
            inl (database, s, ground arith, (refl, refl, refl), rejected_call broken)
        | inr (id, t, chosen, (same_s, same_p, same_t), kept) ↦ elim (issue-cases r id t) [
          | inl (e, broken) ↦
              inl (database, t, ground arith, (same_s, same_p, same_t), rejected_call broken)
          | inr (u, e, (stations, provisioning, transactions)) ↦ inr (
            r,
            record {
              result = result_of c x serial model manufacturer_id id;
              reprovisioned = is_provisioned r.status;
            },
            u,
            ground arith,
            record {
              hit = hit;
              same_manufacturer = native;
              allowed = allowed;
              same_id = kept;
              password = refl;
              server = refl;
              path = refl;
              port = refl;
              again = refl;
              stations = rw (← same_s) stations;
              provisioning = rw (← same_p) provisioning;
              transactions = transactions ∙ same_t;
            },
          )
        ]
      ]

  check_record-Ends :
      (found : Option Provisioning) (s : Db)
      → c.client.find_first (has_serial serial) s.provisioning ≡ some found
      → Ends s (check_record c x serial model manufacturer_id found s)
  unfolding check_record
  check_record-Ends none s e =
      inl
        (unregistered, s, refl, (refl, refl, refl), unknown (l.find_first-none _ s.provisioning e))
  check_record-Ends (some r) s e =
      let hit = l.find_first-some (has_serial serial) s.provisioning r e in
      elim (Bool-cases (is_foreign manufacturer_id r)) [
        | inl f ↦ inl (unregistered, s, ground arith, (refl, refl, refl), foreign r hit f)
        | inr f ↦ elim (Bool-cases (is_barred r.status)) [
          | inl b ↦ inl (barred, s, ground arith, (refl, refl, refl), not_allowed r hit b)
          | inr b ↦ subst (Ends s) (ground arith) (provision_record-Ends r s hit f b)
        ]
      ]

  -- Whichever calls of the client fail, `provision` ends in one of two ways. It refuses, and then
  -- the stations, the registrations and the sessions are as they were and there is a reason: the
  -- serial number is not registered, or is another manufacturer's, or is rejected or revoked, or
  -- a call of the client was rejected. Or it answers with a station id and a password: the station's
  -- row has the password's hash, or there was none and a new row with the hash and the serial number
  -- is offline; and the registration is provisioned, at the time of now, with the station id, which
  -- is the one that it had before if it had one.
  pub provision_db-Ends : (s : Db) → Ends s (provision_db c x serial model manufacturer_id s)
  unfolding provision_db
  provision_db-Ends s =
      elim (Option-cases (c.client.find_first (has_serial serial) s.provisioning)) [
        | inl e ↦ inl (
          database,
          s,
          ground arith,
          (refl, refl, refl),
          rejected_call (of_query s.provisioning e),
        )
        | inr (found, e) ↦ subst (Ends s) (ground arith) (check_record-Ends found s e)
      ]
