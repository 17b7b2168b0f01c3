-- ===== src/Transactions/Meter.antt =====
-- packages/core/src/ocpp/handlers/meterValues.handler.ts
pub mod Laws
use pvpentech_core.Common.{
  ℕ, ◌≡◌, ◌⊎◌, inl, inr, refl, sym, String, Bool, false, ◌&&◌, List, [], ◌∷◌, ◌++◌, map, Option,
  none, some, ◌==◌, str_eq, any, arith, if◌then◌else◌, Option-cases,
}
use mathlib.Core.List.{append-nil}
use pvpentech_core.Database.Rows.{Transaction, MeterValue, is_active}
use pvpentech_core.Database.Events.{MeterValueUpdate, meter_value_update, transaction, OutboxRow}
use pvpentech_core.Database.Client.{IsClient, Finds}
use pvpentech_core.Database.Monad.{
  Db, Context, Doubles, M, ok, threw, pure, ◌>>=◌, ◌>>◌, transact, ignore, asks, puts,
}
use pvpentech_core.Transactions.Outbox.{write_outbox}
use pvpentech_core.Transactions.Outbox.Laws.{IsWritten, write_outbox-cases}
use pvpentech_core.Transactions.Stop.{
  SampledValue, MeterValueEntry, each_sample, followed, measurand_of,
}

pub record MeterPayload : Type 0 where
  pub connector_id : ℕ
  pub meter_value : List MeterValueEntry

-- `where: { stationId, connectorId, status: 'Active' }`
abbrev pub is_charging : String → ℕ → Transaction → Bool
is_charging station n t = str_eq t.station_id station && t.connector_id == n && is_active t.status

-- `text || null`
abbrev text_or_null : Option String → Option String
text_or_null none = none
text_or_null (some s) = if str_eq s "" then none else some s

-- `sv.unit || 'Wh'`
abbrev unit_of : Option String → String
unit_of none = "Wh"
unit_of (some s) = if str_eq s "" then "Wh" else s

abbrev newest : Option ℕ → Option ℕ → Option ℕ
newest none value = value
newest (some later) value = some later

-- The last value of a measurand, as the loop leaves it.
unfoldable pub latest_value : String → List MeterValue → Option ℕ
latest_value measurand [] = none
latest_value measurand (r ∷ rs) =
    newest (latest_value measurand rs) (if str_eq r.measurand measurand then some r.value else none)

-- The kWh since the start, rounded to three places. The doubles' `sub` stops at 0, as
-- `Math.max(0, …)` does.
unfoldable pub current_kwh : Doubles → ℕ → Option ℕ → Option ℕ
current_kwh d meter_start none = none
current_kwh d meter_start (some energy) =
    let kwh = d.div (d.sub energy (d.of_ℕ meter_start)) (d.of_ℕ 1000) in
    some (d.div (d.of_ℕ (d.round (d.mul kwh (d.of_ℕ 1000)))) (d.of_ℕ 1000))

module _ (c : Context) (station : String) (p : MeterPayload) where
  sample_record : ℕ → String → SampledValue → MeterValue
  unfolding measurand_of
  sample_record id timestamp sv = record {
    transaction_id = id;
    timestamp = c.date timestamp;
    measurand = measurand_of sv.measurand;
    value = c.doubles.parse_float sv.value;
    unit = some (unit_of sv.unit);
    phase = text_or_null sv.phase;
    context = text_or_null sv.context;
    format = text_or_null sv.format;
    location = text_or_null sv.location;
  }

  -- `none` when the loop throws.
  pub sample_records : ℕ → List MeterValueEntry → Option (List MeterValue)
  unfolding sample_record
  sample_records id [] = some []
  sample_records id (mv ∷ entries) =
      followed (each_sample (sample_record id mv.timestamp) mv.sampled_value)
        (sample_records id entries)

  abbrev pub update_event : Transaction → List MeterValue → MeterValueUpdate
  update_event t rs = record {
    transaction_id = t.id;
    session_id = t.session_id;
    station_id = station;
    current_kwh =
        current_kwh c.doubles t.meter_start (latest_value "Energy.Active.Import.Register" rs);
    current_w = latest_value "Power.Active.Import" rs;
  }

  store_records : List MeterValue → M (Unit {0})
  store_records rs s =
      puts (c.client.create_many rs s.meter_values) (λ t. record s { meter_values = t }) s

  tell_update : Transaction → List MeterValue → M (Unit {0})
  tell_update t rs =
      ignore (transact (write_outbox c (meter_value_update (update_event t rs)) (transaction t.id)))

  save_samples : Transaction → Option (List MeterValue) → M (Unit {0})
  unfolding store_records tell_update
  save_samples t none = threw
  save_samples t (some []) = pure tt
  save_samples t (some (r ∷ rs)) = do store_records (r ∷ rs); tell_update t (r ∷ rs)

  meter_found : Option Transaction → M (Unit {0})
  unfolding save_samples sample_records
  meter_found none = pure tt
  meter_found (some t) = save_samples t (sample_records t.id p.meter_value)

  pub meter_values : M (Unit {0})
  unfolding meter_found
  meter_values = do
    found ← λ s. asks (c.client.find_first (is_charging station p.connector_id) s.transactions) s
    meter_found found
