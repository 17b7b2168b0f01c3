-- ===== src/Transactions/Stop.antt =====
-- packages/core/src/ocpp/handlers/stopTransaction.handler.ts
pub mod Laws
use pvpentech_core.Common.{
  ℕ, ◌-◌, String, Bool, true, false, ◌&&◌, ◌||◌, not, List, [], ◌∷◌, ◌++◌, Option, none, some, ◌==◌,
  str_eq, or_else, map, if◌then◌else◌,
}
use pvpentech_core.Database.Rows.{Connector, available, Transaction, stopped, MeterValue}
use pvpentech_core.Database.Events.{TransactionStopped, transaction_stopped, transaction}
use pvpentech_core.Database.Monad.{
  Db, Context, Doubles, Run, M, threw, pure, ◌>>=◌, ◌>>◌, transact, ignore, asks, puts, gives,
}
use pvpentech_core.Transactions.Outbox.{write_outbox}

pub record SampledValue : Type 0 where
  pub value : String
  pub measurand : Option String
  pub unit : Option String
  pub phase : Option String
  pub context : Option String
  pub format : Option String
  pub location : Option String

-- An entry may come without its samples, as a payload's entries are not checked.
pub record MeterValueEntry : Type 0 where
  pub timestamp : String
  pub sampled_value : Option (List SampledValue)

-- The inner loop over `mv.sampledValue`, which throws if that is not there.
abbrev pub each_sample :
    {A : Type 0} → (SampledValue → A) → Option (List SampledValue) → Option (List A)
each_sample f none = none
each_sample f (some svs) = some (map f svs)

-- The records of an entry and of those after it, if no loop throws.
abbrev pub followed : {A : Type 0} → Option (List A) → Option (List A) → Option (List A)
followed none rest = none
followed (some rs) none = none
followed (some rs) (some rest) = some (rs ++ rest)

pub record StopPayload : Type 0 where
  pub transaction_id : ℕ
  pub meter_stop : ℕ
  pub timestamp : String
  pub reason : Option String
  pub transaction_data : List MeterValueEntry

abbrev pub opt_eq : Option ℕ → ℕ → Bool
opt_eq none n = false
opt_eq (some m) n = m == n

-- `where: { ocppTransactionId: p.transactionId, stationId }`
abbrev pub is_target : String → ℕ → Transaction → Bool
is_target station n t = opt_eq t.ocpp_transaction_id n && str_eq t.station_id station

-- `totalWh / 1000`; the subtraction stops at 0, as `Math.max(0, …)` does.
unfoldable pub total_kwh : Doubles → ℕ → ℕ → ℕ
total_kwh d meter_start meter_stop = d.div (d.of_ℕ (meter_stop - meter_start)) (d.of_ℕ 1000)

-- `Math.floor(totalKwh * unitPrice)`
unfoldable pub cost_vnd : Doubles → ℕ → ℕ → ℕ → ℕ
unfolding total_kwh
cost_vnd d meter_start meter_stop unit_price =
    d.floor (d.mul (total_kwh d meter_start meter_stop) (d.of_ℕ unit_price))

-- `transaction.unitPriceVnd ?? 3500`
abbrev pub unit_price : Transaction → ℕ
unit_price t = or_else t.unit_price_vnd 3500

-- A reason other than 'Local' and 'Remote' is kept as the reason of a failure.
unfoldable pub fail_reason_of : Option String → Option String
fail_reason_of none = none
fail_reason_of (some r) = if str_eq r "Local" || str_eq r "Remote" then none else some r

-- `sv.measurand || '…'`: an empty text counts as none.
unfoldable pub measurand_of : Option String → String
measurand_of none = "Energy.Active.Import.Register"
measurand_of (some m) = if str_eq m "" then "Energy.Active.Import.Register" else m

module _ (c : Context) where
  -- The body of the inner loop. `parseFloat(…) || 0` is the doubles' `parse_float`.
  record_of : ℕ → String → SampledValue → MeterValue
  unfolding measurand_of
  record_of id timestamp sv = record {
    transaction_id = id;
    timestamp = c.date timestamp;
    measurand = measurand_of sv.measurand;
    value = c.doubles.parse_float sv.value;
    unit = sv.unit;
    phase = sv.phase;
    context = sv.context;
    format = sv.format;
    location = sv.location;
  }

  -- The outer loop over `p.transactionData`.
  records_of : ℕ → List MeterValueEntry → Option (List MeterValue)
  unfolding record_of
  records_of id [] = some []
  records_of id (mv ∷ entries) =
      followed (each_sample (record_of id mv.timestamp) mv.sampled_value) (records_of id entries)

  -- `none` when the loop before it has thrown.
  pub save_records : Option (List MeterValue) → M (Unit {0})
  save_records none s = threw s
  save_records (some []) s = pure tt s
  save_records (some (r ∷ rs)) s =
      ignore
        (λ s.
          puts (c.client.create_many (r ∷ rs) s.meter_values) (λ t. record s { meter_values = t })
            s)
        s

  module _ (station : String) (p : StopPayload) where
    find_target : M (Option Transaction)
    find_target s = asks (c.client.find_first (is_target station p.transaction_id) s.transactions) s

    pub cost_of : Transaction → ℕ
    unfolding cost_vnd
    cost_of t = cost_vnd c.doubles t.meter_start p.meter_stop (unit_price t)

    -- The `data` of the update, whose values come from the row as it was found.
    abbrev closed : Transaction → Transaction → Transaction
    closed found t = record t {
      status = stopped;
      meter_end = some p.meter_stop;
      time_end = some (c.date p.timestamp);
      cost_vnd = some (cost_of found);
      unit_price_vnd = some (unit_price found);
      fail_reason = fail_reason_of p.reason;
    }

    -- The event, made from the updated row and the row as it was found.
    abbrev stopped_event : Transaction → Transaction → TransactionStopped
    stopped_event found t = record {
      transaction_id = t.id;
      session_id = t.session_id;
      station_id = station;
      meter_start = t.meter_start;
      meter_stop = p.meter_stop;
      total_kwh = total_kwh c.doubles found.meter_start p.meter_stop;
      cost_vnd = t.cost_vnd;
      unit_price_vnd = t.unit_price_vnd;
      time_start = t.time_start;
      time_end = or_else t.time_end (c.date p.timestamp);
      reason = p.reason;
    }

    -- The body of the `$transaction`.
    close_transaction : Transaction → M (Unit {0})
    close_transaction found = do
      updated ← λ s.
          gives (c.client.update (λ t. t.id == found.id) (closed found) s.transactions)
            (λ t. record s { transactions = t }) s
      write_outbox c (transaction_stopped (stopped_event found updated)) (transaction updated.id)
      pure tt

    pub set_available : Transaction → M (Unit {0})
    set_available found s =
        puts
          (c.client.update_many
            (λ r. str_eq r.station_id station && r.connector_id == found.connector_id)
            (λ r. record r { current_status = available }) s.connectors)
          (λ t. record s { connectors = t }) s

    -- The status of the response `{ idTagInfo: { status } }`.
    stop_found : Option Transaction → M String
    unfolding close_transaction save_records records_of set_available
    stop_found none = pure "Accepted"
    stop_found (some found) = do
      transact (close_transaction found)
      save_records (records_of found.id p.transaction_data)
      ignore (set_available found)
      pure "Accepted"

    pub stop_transaction : M String
    unfolding find_target stop_found
    stop_transaction = do found ← find_target; stop_found found
