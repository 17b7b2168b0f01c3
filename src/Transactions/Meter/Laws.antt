-- ===== src/Transactions/Meter/Laws.antt =====
-- What meterValues.handler.ts leaves behind, whichever of its calls fail.
use pvpentech_core.Common.{
  ℕ, ◌≡◌, ◌⊎◌, inl, inr, refl, sym, ap, subst, String, true, false, List, [], ◌∷◌, ◌++◌, map,
  Option, none, some, str_eq, str_eq_iff, any, arith, or_else, if◌then◌else◌, Option-cases,
  Bool-cases,
}
use mathlib.Core.List.{append-nil}
use pvpentech_core.Database.Rows.{Transaction, MeterValue}
use pvpentech_core.Database.Events.{MeterValueUpdate, meter_value_update, transaction, OutboxRow}
use pvpentech_core.Database.Client.{IsClient, Finds}
use pvpentech_core.Database.Monad.{Db, Context, ok, threw}
use pvpentech_core.Transactions.Outbox.Laws.{IsWritten, write_outbox-cases}
use pvpentech_core.Transactions.Stop.{SampledValue, MeterValueEntry, measurand_of}
use pvpentech_core.Transactions.Stop.Laws.{lacks_samples}
use pvpentech_core.Transactions.Meter
use pvpentech_core.Transactions.Meter.{
  MeterPayload, is_charging, latest_value, newest, sample_record, sample_records, update_event,
  store_records, tell_update, save_samples, meter_found, meter_values,
}

-- The last record of a measurand has the value; there is none without one.
abbrev pub IsNewest : String → List MeterValue → Option ℕ → Type 0
IsNewest measurand rs none = any (λ r. str_eq r.measurand measurand) rs ≡ false
IsNewest measurand rs (some value) =
    (before : List MeterValue) × (r : MeterValue) × (after : List MeterValue) × (rs
      ≡ before ++ r ∷ after)
    × (r.measurand ≡ measurand)
    × (r.value ≡ value)
    × (any (λ x. str_eq x.measurand measurand) after ≡ false)

latest_value-IsNewest :
    (measurand : String) (rs : List MeterValue) → IsNewest measurand rs (latest_value measurand rs)
unfolding latest_value
latest_value-IsNewest measurand [] = refl
latest_value-IsNewest measurand (r ∷ rs) =
    let rest = latest_value-IsNewest measurand rs in
    elim (Option-cases (latest_value measurand rs)) [
      | inl e ↦
          let absent : any (λ x. str_eq x.measurand measurand) rs ≡ false =
            subst (IsNewest measurand rs) e rest in
          elim (Bool-cases (str_eq r.measurand measurand)) [
            | inl same ↦
                rw (e, same)
                  ([], r, rs, refl, (str_eq_iff r.measurand measurand).0 same, refl, absent)
            | inr other ↦ rw (e, other) (rw other absent)
          ]
      | inr (value, e) ↦
          let (before, q, after, shape, name, has, absent) = subst (IsNewest measurand rs) e rest in
          rw e (r ∷ before, q, after, ap (λ t. r ∷ t) shape, name, has, absent)
    ]

-- The text, or the other one if it is missing or empty.
abbrev pub text_or : String → Option String → String
text_or other none = other
text_or other (some text) = if str_eq text "" then other else text

-- A text that is not empty.
abbrev pub full_text : Option String → Option String
full_text none = none
full_text (some text) = if str_eq text "" then none else some text

module _ (c : Context) (station : String) (p : MeterPayload) where
  -- A record of each sample of each entry, in their order.
  abbrev pub records_for : ℕ → List MeterValueEntry → List MeterValue
  records_for id [] = []
  records_for id (mv ∷ entries) =
      map
        (λ sv. record {
          transaction_id = id;
          timestamp = c.date mv.timestamp;
          measurand = text_or "Energy.Active.Import.Register" sv.measurand;
          value = c.doubles.parse_float sv.value;
          unit = some (text_or "Wh" sv.unit);
          phase = full_text sv.phase;
          context = full_text sv.context;
          format = full_text sv.format;
          location = full_text sv.location;
        })
        (or_else mv.sampled_value [])
      ++ records_for id entries

  -- The energy since the start of the session, in kWh with three places.
  abbrev pub kwh_since : ℕ → Option ℕ → Option ℕ
  kwh_since meter_start none = none
  kwh_since meter_start (some energy) =
      let d = c.doubles in
      let kwh = d.div (d.sub energy (d.of_ℕ meter_start)) (d.of_ℕ 1000) in
      some (d.div (d.of_ℕ (d.round (d.mul kwh (d.of_ℕ 1000)))) (d.of_ℕ 1000))

  -- The event tells of the session, and of the newest energy and power among the records.
  pub record IsUpdate (found : Transaction) (rs : List MeterValue) (event : MeterValueUpdate)
      : Type 0 where
    pub transaction_id : event.transaction_id ≡ found.id
    pub session_id : event.session_id ≡ found.session_id
    pub station_id : event.station_id ≡ station
    pub energy : Option ℕ
    pub newest_energy : IsNewest "Energy.Active.Import.Register" rs energy
    pub current_kwh : event.current_kwh ≡ kwh_since found.meter_start energy
    pub newest_power : IsNewest "Power.Active.Import" rs event.current_w

  -- The outbox is as it was, or has grown by the one event that tells of the newest values.
  abbrev pub TellsUpdate : Transaction → List MeterValue → Db → Db → Type 0
  TellsUpdate found rs s t =
      (t.outbox ≡ s.outbox)
      ⊎ ((row : OutboxRow) × (event : MeterValueUpdate) × IsUpdate found rs event
          × IsWritten (meter_value_update event) (transaction found.id) row
          × (t.outbox ≡ s.outbox ++ row ∷ []))

  -- The records stand at the end of the table.
  abbrev pub Stores : Transaction → List MeterValue → Db → Db → Type 0
  Stores found rs s t =
      (t.meter_values ≡ s.meter_values ++ rs)
      × (t.transactions ≡ s.transactions)
      × TellsUpdate found rs s t

  sample_record_same :
      (id : ℕ) (timestamp : String) (svs : List SampledValue)
      → map (sample_record c station p id timestamp) svs
        ≡ map
            (λ sv. record {
              transaction_id = id;
              timestamp = c.date timestamp;
              measurand = text_or "Energy.Active.Import.Register" sv.measurand;
              value = c.doubles.parse_float sv.value;
              unit = some (text_or "Wh" sv.unit);
              phase = full_text sv.phase;
              context = full_text sv.context;
              format = full_text sv.format;
              location = full_text sv.location;
            })
            svs
  unfolding sample_record measurand_of
  sample_record_same id timestamp svs = refl

  sample_records-cases :
      (id : ℕ) (entries : List MeterValueEntry)
      → ((sample_records c station p id entries ≡ none) × (any lacks_samples entries ≡ true))
        ⊎ ((sample_records c station p id entries ≡ some (records_for id entries))
            × (any lacks_samples entries ≡ false))
  unfolding sample_records
  sample_records-cases id [] = inr (refl, refl)
  sample_records-cases id (mv ∷ entries) = elim (Option-cases mv.sampled_value) [
    | inl e ↦ inl (rw e refl, rw e refl)
    | inr (svs, e) ↦ elim (sample_records-cases id entries) [
      | inl (k, lacks) ↦ inl (rw (e, k) refl, rw (e, lacks) refl)
      | inr (k, whole) ↦
          inr (rw (e, k, sample_record_same id mv.timestamp svs) refl, rw (e, whole) refl)
    ]
  ]

  kwh_same :
      (meter_start : ℕ) (energy : Option ℕ)
      → Meter.current_kwh c.doubles meter_start energy ≡ kwh_since meter_start energy
  unfolding Meter.current_kwh
  kwh_same meter_start none = refl
  kwh_same meter_start (some energy) = refl

  update_event-IsUpdate :
      (found : Transaction) (rs : List MeterValue)
      → IsUpdate found rs (update_event c station p found rs)
  update_event-IsUpdate found rs = record {
    transaction_id = refl;
    session_id = refl;
    station_id = refl;
    energy = latest_value "Energy.Active.Import.Register" rs;
    newest_energy = latest_value-IsNewest "Energy.Active.Import.Register" rs;
    current_kwh = kwh_same found.meter_start (latest_value "Energy.Active.Import.Register" rs);
    newest_power = latest_value-IsNewest "Power.Active.Import" rs;
  }

  module _ (l : IsClient c.client) where
    save_samples-cases :
        (found : Transaction) (rs : List MeterValue) (s : Db)
        → (save_samples c station p found (some rs) s ≡ threw s)
          ⊎ ((t : Db) × (save_samples c station p found (some rs) s ≡ ok tt t)
              × Stores found rs s t)
    unfolding save_samples store_records tell_update
    save_samples-cases found [] s = inr (s, refl, (sym (append-nil s.meter_values), refl, inl refl))
    save_samples-cases found (r ∷ rs) s =
        elim (Option-cases (c.client.create_many (r ∷ rs) s.meter_values)) [
          | inl e ↦ inl (ground arith)
          | inr (t, e) ↦
              let stored = l.create_many_lem (r ∷ rs) s.meter_values t e in
              let event = update_event c station p found (r ∷ rs) in
              elim (write_outbox-cases c l (meter_value_update event) (transaction found.id)
                (record s { meter_values = t })) [
                  | inl w ↦
                      inr (record s { meter_values = t }, ground arith, (stored, refl, inl refl))
                  | inr (row, written, w) ↦ inr (
                    record s { meter_values = t; outbox = s.outbox ++ row ∷ [] },
                    ground arith,
                    (
                      stored,
                      refl,
                      inr (row, event, update_event-IsUpdate found (r ∷ rs), written, refl),
                    ),
                  )
                ]
        ]

    -- Whichever calls of the client fail, a MeterValues request ends in one of three ways: it
    -- throws and leaves the state; no session charges at the connector, and nothing changes; or one
    -- is found, each entry has its samples, the table of meter values has grown by a record of each
    -- sample, the transactions stay, and the outbox has grown by at most the one event that tells
    -- of the last energy and the last power among the samples.
    pub meter_values-cases :
        (s : Db)
        → (meter_values c station p s ≡ threw s)
          ⊎ ((meter_values c station p s ≡ ok tt s)
              × (any (is_charging station p.connector_id) s.transactions ≡ false))
          ⊎ ((found : Transaction) × (t : Db) × (meter_values c station p s ≡ ok tt t)
              × Finds (is_charging station p.connector_id) found s.transactions
              × (any lacks_samples p.meter_value ≡ false)
              × Stores found (records_for found.id p.meter_value) s t)
    unfolding meter_values meter_found save_samples
    meter_values-cases s =
        elim (Option-cases
          (c.client.find_first (is_charging station p.connector_id) s.transactions)) [
            | inl e ↦ inl (ground arith)
            | inr (none, e) ↦ inr (inl (ground arith, l.find_first-none _ s.transactions e))
            | inr (some found, e) ↦ elim (sample_records-cases found.id p.meter_value) [
              | inl (k, lacks) ↦ inl (ground arith)
              | inr (k, whole) ↦
                  elim (save_samples-cases found (records_for found.id p.meter_value) s) [
                    | inl fails ↦ inl (ground arith)
                    | inr (t, saves, stored) ↦ inr (
                        inr (
                          found,
                          t,
                          ground arith,
                          l.find_first-some _ s.transactions found e,
                          whole,
                          stored,
                        ))
                  ]
            ]
          ]
