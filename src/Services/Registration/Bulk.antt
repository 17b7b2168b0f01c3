-- ===== src/Services/Registration/Bulk.antt =====
-- What an import of serial numbers counts.
use pvpentech_core.Common.{
  ℕ, suc, ◌+◌, ◌≡◌, ◌⊎◌, inl, inr, refl, subst, ap, ◌∙◌, String, List, [], ◌∷◌, ◌++◌, Option, none,
  some, arith, length, lookup, insert, str_eq, Bool-cases, Option-cases,
}
use pvpentech_core.Database.Rows.{Provisioning}
use pvpentech_core.Database.Client.{IsClient}
use pvpentech_core.Database.Monad.{Db, Context}
use pvpentech_core.Services.{Failure, conflict, database, Outcome, done, refused}
use pvpentech_core.Services.Provision.{has_serial, or_text}
use pvpentech_core.Services.Registration.{
  Registration, ImportRow, Imported, has_channel, new_registration, new_client_station,
  create_registration, create_station, register_client, register, Cache, look_up, manufacturer_of,
  counted, import_power, import_known, import_serial, import_row, import_rows, bulk_register,
  found_id,
}
use pvpentech_core.Transactions.Start.{is_station}

length-last : {Row : Type 0} (t : List Row) (r : Row) → length (t ++ r ∷ []) ≡ suc (length t)
length-last [] r = refl
length-last (x ∷ t) r = ground (arith, length-last t r)

module _ (c : Context) (l : IsClient c.client) where
  -- A registration leaves one row more, or is refused and leaves the registrations as they were.
  abbrev Adds : Db → Outcome Provisioning → Type 0
  Adds s end =
      ((e : Failure) × (t : Db) × (end ≡ refused e t)
        × (length t.provisioning ≡ length s.provisioning))
      ⊎ ((r : Provisioning) × (t : Db) × (end ≡ done r t)
          × (length t.provisioning ≡ suc (length s.provisioning)))

  create_registration-Adds :
      (q : Registration) (client : Option String) (s : Db)
      → Adds s (create_registration c q client s)
  unfolding create_registration
  create_registration-Adds q client s =
      elim (Option-cases
        (c.client.create (λ r. r.id) (new_registration c q client) s.provisioning)) [
          | inl e ↦ inl (database, s, ground arith, refl)
          | inr ((r, t), e) ↦
              let (id, made, grown) =
                l.create_lem (λ r. r.id) (new_registration c q client) s.provisioning t r e in
              inr (
                r,
                record s { provisioning = t },
                ground arith,
                ap length grown ∙ length-last s.provisioning r,
              )
        ]

  register_client-Adds :
      (q : Registration) (client : Option String) (s : Db) → Adds s (register_client c q client s)
  unfolding register_client create_station
  register_client-Adds q none s = subst (Adds s) (ground arith) (create_registration-Adds q none s)
  register_client-Adds q (some id) s =
      elim (Option-cases (c.client.find_first (is_station id) s.stations)) [
        | inl e ↦ inl (database, s, ground arith, refl)
        | inr (some r, e) ↦ inl (conflict "", s, ground arith, refl)
        | inr (none, e) ↦
            elim (Option-cases
              (c.client.create (λ _. 0) (λ _. new_client_station c q id) s.stations)) [
                | inl k ↦ inl (database, s, ground arith, refl)
                | inr ((st, stations), k) ↦
                    elim (create_registration-Adds q (some id) (record s { stations = stations })) [
                      | inl (f, t, m, same) ↦ inl (f, s, ground arith, refl)
                      | inr (r, t, m, more) ↦ inr (r, t, ground arith, more)
                    ]
              ]
      ]

  register-Adds : (q : Registration) (s : Db) → Adds s (register c q s)
  unfolding register
  register-Adds q s =
      elim (Option-cases (c.client.find_first (has_serial q.serial_number) s.provisioning)) [
        | inl e ↦ inl (database, s, ground arith, refl)
        | inr (some r, e) ↦ inl (conflict "", s, ground arith, refl)
        | inr (none, e) ↦
            subst (Adds s) (ground arith) (register_client-Adds q (or_text q.client_id none) s)
      ]

  module _ (trim : String → String) (reason : Failure → String) (registered_by : String) where
    -- A row of the import is counted once, and leaves one registration more if it is counted as
    -- registered.
    record Counts (a b : Imported) (s t : Db) : Type 0 where
      pub all : b.registered + b.skipped ≡ suc (a.registered + a.skipped)
      pub rows : length t.provisioning + a.registered ≡ length s.provisioning + b.registered

    manufacturer_of-keeps :
        (channel : Option String) (cache : Cache c trim reason registered_by) (s : Db)
        → ((e : Failure) × (manufacturer_of c trim reason registered_by channel cache s
              ≡ refused e s))
          ⊎ ((a : Option ℕ × Cache c trim reason registered_by) × (manufacturer_of c trim reason
                  registered_by channel cache s
                ≡ done a s))
    unfolding manufacturer_of look_up
    manufacturer_of-keeps none cache s = inr (_, refl)
    manufacturer_of-keeps (some channel) cache s = elim (Bool-cases (str_eq channel "")) [
      | inl e ↦ inr ((none, cache), rw e refl)
      | inr e ↦ elim (Option-cases (lookup (trim channel) cache)) [
        | inr (id, k) ↦ inr ((id, cache), ground arith)
        | inl k ↦
            elim (Option-cases (c.client.find_first (has_channel (trim channel)) s.manufacturers)) [
              | inl m ↦ inl (database, ground arith)
              | inr (found, m) ↦
                  inr ((found_id found, insert (trim channel) (found_id found) cache), ground arith)
            ]
      ]
    ]

    counted-Counts :
        (serial : String) (q : Registration) (a : Imported) (s : Db)
        → let after = counted c trim reason registered_by serial (register c q s) a in
          Counts a after.0 s after.1
    unfolding counted
    counted-Counts serial q a s = elim (register-Adds q s) [
      | inl (e, t, m, same) ↦ rw m (record { all = ground arith; rows = ground (arith, same) })
      | inr (r, t, m, more) ↦ rw m (record { all = ground arith; rows = ground (arith, more) })
    ]

    import_power-Counts :
        (serial : String) (manufacturer : Option ℕ) (power : Option (Option ℕ)) (a : Imported)
        (s : Db)
        → let after = import_power c trim reason registered_by serial manufacturer power a s in
          Counts a after.0 s after.1
    unfolding import_power
    import_power-Counts serial manufacturer (some none) a s = record {
      all = ground arith;
      rows = refl;
    }
    import_power-Counts serial manufacturer none a s = counted-Counts serial _ a s
    import_power-Counts serial manufacturer (some (some kwh)) a s = counted-Counts serial _ a s

    skip-Counts : (a : Imported) (s : Db) → Counts a (record a { skipped = suc a.skipped }) s s
    skip-Counts a s = record { all = ground arith; rows = refl }

    import_serial-Counts :
        (serial : String) (row : ImportRow) (cache : Cache c trim reason registered_by)
        (a : Imported) (s : Db)
        → let after = import_serial c trim reason registered_by serial row cache a s in
          Counts a after.0 s after.2
    unfolding import_serial import_known
    import_serial-Counts serial row cache a s = elim (Bool-cases (str_eq serial "")) [
      | inl e ↦ rw e (skip-Counts a s)
      | inr e ↦ elim (manufacturer_of-keeps row.channel_id cache s) [
        | inl (f, m) ↦ rw (e, m) (record { all = ground arith; rows = refl })
        | inr ((id, after), m) ↦ rw (e, m) (import_power-Counts serial id row.charging_kwh a s)
      ]
    ]

    import_row-Counts :
        (row : ImportRow) (cache : Cache c trim reason registered_by) (a : Imported) (s : Db)
        → let after = import_row c trim reason registered_by row cache a s in
          Counts a after.0 s after.2
    unfolding import_row
    import_row-Counts row cache a s = elim (Option-cases row.serial_number) [
      | inl e ↦ rw e (skip-Counts a s)
      | inr (serial, e) ↦ rw e (import_serial-Counts (trim serial) row cache a s)
    ]

    import_rows-Counts :
        (rows : List ImportRow) (cache : Cache c trim reason registered_by) (a : Imported) (s : Db)
        → let after = import_rows c trim reason registered_by rows cache a s in
          (after.0.registered + after.0.skipped ≡ length rows + (a.registered + a.skipped))
          × (length after.1.provisioning + a.registered
              ≡ length s.provisioning + after.0.registered)
    unfolding import_rows
    import_rows-Counts [] cache a s = (ground arith, refl)
    import_rows-Counts (row ∷ rows) cache a s =
        let (b, after, t) = import_row c trim reason registered_by row cache a s in
        let one = import_row-Counts row cache a s in
        let (all, added) = import_rows-Counts rows after b t in
        (ground (arith, all, one.all), ground (arith, added, one.rows))

    -- Whichever calls of the client fail, an import counts each of its rows exactly once, as registered
    -- or as skipped, and it leaves as many registrations more as it counted as registered.
    pub bulk_register-counts :
        (rows : List ImportRow) (s : Db)
        → let after = bulk_register c trim reason registered_by rows s in
          (after.0.registered + after.0.skipped ≡ length rows)
          × (length after.1.provisioning ≡ length s.provisioning + after.0.registered)
    unfolding bulk_register
    bulk_register-counts rows s =
        let (all, added) =
          import_rows-Counts rows [] (record { registered = 0; skipped = 0; errors = [] }) s in
        (ground (arith, all), ground (arith, added))
