-- ===== src/Transactions/Stop/Laws.antt =====
-- What stopTransaction.handler.ts leaves behind, whichever of its calls fail.
use pvpentech_core.Common.{
  ◌≡◌, ◌⊎◌, inl, inr, refl, ◌∙◌, ◌&&◌, ℕ, ◌-◌, Bool, true, not, is_some, map, or_else, str_eq,
  String, false, List, [], ◌∷◌, ◌++◌, none, some, ◌==◌, arith, ==_iff, any, change, Option-cases,
}
use pvpentech_core.Database.Rows.{Transaction, MeterValue, available, stopped}
use pvpentech_core.Database.Events.{transaction, TransactionStopped, transaction_stopped, OutboxRow}
use pvpentech_core.Database.Client.{IsClient, Finds}
use pvpentech_core.Database.Client.Tables.{Finds-test}
use pvpentech_core.Database.Monad.{Db, Context, ok, threw, transact, ignore}
use pvpentech_core.Transactions.Outbox.Laws.{write_outbox-cases}
use pvpentech_core.Transactions.Stop.{
  StopPayload, is_target, close_transaction, closed, cost_of, cost_vnd, total_kwh, fail_reason_of,
  MeterValueEntry, save_records, record_of, records_of, set_available, stop_found, stop_transaction,
  stopped_event,
}

-- An entry without its samples.
abbrev pub lacks_samples : MeterValueEntry → Bool
lacks_samples mv = not (is_some mv.sampled_value)

module _ (c : Context) (l : IsClient c.client) (station : String) (p : StopPayload) where
  -- The energy in kWh at the session's price, or at 3500, without the fraction.
  abbrev pub price_of : Transaction → ℕ
  price_of found =
      let d = c.doubles in
      d.floor (
        d.mul (d.div (d.of_ℕ (p.meter_stop - found.meter_start)) (d.of_ℕ 1000))
          (d.of_ℕ (or_else found.unit_price_vnd 3500)))

  -- The session is closed and its event is written: the row's change is the one change of the
  -- transactions, and the event that tells of it is the one new row of the outbox.
  pub record IsClosed (s t : Db) (found : Transaction) : Type 0 where
    pub row : OutboxRow
    pub event : TransactionStopped
    pub transactions :
        t.transactions
        ≡ change
            (λ x. x.id == found.id)
            (λ x. record x {
              status = stopped;
              meter_end = some p.meter_stop;
              time_end = some (c.date p.timestamp);
              cost_vnd = some (price_of found);
              unit_price_vnd = some (or_else found.unit_price_vnd 3500);
              fail_reason = fail_reason_of p.reason;
            })
            s.transactions
    pub outbox : t.outbox ≡ s.outbox ++ row ∷ []
    pub tells : row.event ≡ transaction_stopped event
    pub same_id : event.transaction_id ≡ found.id
    pub same_cost : event.cost_vnd ≡ some (price_of found)
    pub same_price : event.unit_price_vnd ≡ some (or_else found.unit_price_vnd 3500)
    pub same_stop : event.meter_stop ≡ p.meter_stop
    pub unpublished : row.published_at ≡ none

  abbrev Closes : Transaction → Db → Type 0
  Closes found s =
      (transact (close_transaction c station p found) s ≡ threw s)
      ⊎ ((t : Db) × (transact (close_transaction c station p found) s ≡ ok tt t)
          × IsClosed s t found)

  after_update :
      (found updated : Transaction) (rows : List Transaction) (s : Db)
      → c.client.update (λ x. x.id == found.id) (closed c station p found) s.transactions
        ≡ some (updated, rows)
      → Closes found s
  unfolding close_transaction cost_of cost_vnd total_kwh
  after_update found updated rows s e =
      let (old, hit, became, shape) =
        l.update_lem (λ x. x.id == found.id) (closed c station p found) s.transactions rows updated
          e in
      let same : old.id ≡ found.id =
        (==_iff _ _).0 (Finds-test (λ x. x.id == found.id) old s.transactions hit) in
      elim (write_outbox-cases c l (transaction_stopped (stopped_event c station p found updated))
        (transaction updated.id) (record s { transactions = rows })) [
          | inl w ↦ inl (ground arith)
          | inr (row, written, w) ↦ inr (
            record s { transactions = rows; outbox = s.outbox ++ row ∷ [] },
            ground arith,
            record {
              row = row;
              event = stopped_event c station p found updated;
              transactions = shape;
              outbox = refl;
              tells = written.tells;
              same_id = ground arith;
              same_cost = ground arith;
              same_price = ground arith;
              same_stop = refl;
              unpublished = written.unpublished;
            },
          )
        ]

  close_transaction-cases : (found : Transaction) (s : Db) → Closes found s
  unfolding close_transaction
  close_transaction-cases found s =
      elim (Option-cases
        (c.client.update (λ x. x.id == found.id) (closed c station p found) s.transactions)) [
          | inl e ↦ inl (ground arith)
          | inr ((updated, rows), e) ↦ after_update found updated rows s e
        ]

  save_records-keeps :
      (rs : List MeterValue) (s : Db)
      → (u : Db) × (save_records c (some rs) s ≡ ok tt u)
        × (u.transactions ≡ s.transactions)
        × (u.outbox ≡ s.outbox)
  unfolding save_records
  save_records-keeps [] s = (s, refl, refl, refl)
  save_records-keeps (r ∷ rs) s =
      elim (Option-cases (c.client.create_many (r ∷ rs) s.meter_values)) [
        | inl e ↦ (s, ground arith, refl, refl)
        | inr (t, e) ↦ (record s { meter_values = t }, ground arith, refl, refl)
      ]

  pub set_available-keeps :
      (found : Transaction) (s : Db)
      → (u : Db) × (ignore (set_available c station p found) s ≡ ok tt u)
        × (u.transactions ≡ s.transactions)
        × (u.outbox ≡ s.outbox)
  unfolding set_available
  set_available-keeps found s =
      elim (Option-cases (
        c.client.update_many
          (λ r. str_eq r.station_id station && r.connector_id == found.connector_id)
          (λ r. record r { current_status = available }) s.connectors)) [
            | inl e ↦ (s, ground arith, refl, refl)
            | inr (t, e) ↦ (record s { connectors = t }, ground arith, refl, refl)
          ]

  records_of-cases :
      (id : ℕ) (entries : List MeterValueEntry)
      → ((records_of c id entries ≡ none) × (any lacks_samples entries ≡ true))
        ⊎ ((rs : List MeterValue) × (records_of c id entries ≡ some rs)
            × (any lacks_samples entries ≡ false))
  unfolding records_of
  records_of-cases id [] = inr ([], refl, refl)
  records_of-cases id (mv ∷ entries) = elim (Option-cases mv.sampled_value) [
    | inl e ↦ inl (rw e refl, rw e refl)
    | inr (svs, e) ↦ elim (records_of-cases id entries) [
      | inl (k, lacks) ↦ inl (rw (e, k) refl, rw (e, lacks) refl)
      | inr (rs, k, whole) ↦
          inr (map (record_of c id mv.timestamp) svs ++ rs, rw (e, k) refl, rw (e, whole) refl)
    ]
  ]

  -- The outcome of `stop_found` for a session that was found.
  abbrev Settles : Transaction → Db → Type 0
  Settles found s =
      (stop_found c station p (some found) s ≡ threw s)
      ⊎ ((t : Db) × (stop_found c station p (some found) s ≡ threw t)
          × (any lacks_samples p.transaction_data ≡ true)
          × IsClosed s t found)
      ⊎ ((t : Db) × (stop_found c station p (some found) s ≡ ok "Accepted" t)
          × (any lacks_samples p.transaction_data ≡ false)
          × IsClosed s t found)

  IsClosed-keep :
      (s t u : Db) (found : Transaction)
      → IsClosed s t found
      → u.transactions ≡ t.transactions
      → u.outbox ≡ t.outbox
      → IsClosed s u found
  IsClosed-keep s t u found closing same_t same_o = record {
    row = closing.row;
    event = closing.event;
    transactions = same_t ∙ closing.transactions;
    outbox = same_o ∙ closing.outbox;
    tells = closing.tells;
    same_id = closing.same_id;
    same_cost = closing.same_cost;
    same_price = closing.same_price;
    same_stop = closing.same_stop;
    unpublished = closing.unpublished;
  }

  save_records-none : (s : Db) → save_records c none s ≡ threw s
  unfolding save_records
  save_records-none s = refl

  stop_found-cases : (found : Transaction) (s : Db) → Settles found s
  unfolding stop_found
  stop_found-cases found s = elim (close_transaction-cases found s) [
    | inl e ↦ inl (ground arith)
    | inr (t, e, closing) ↦ elim (records_of-cases found.id p.transaction_data) [
      | inl (k, lacks) ↦
          let throws = save_records-none t in inr (inl (t, ground arith, lacks, closing))
      | inr (rs, k, whole) ↦
          let (u, saved, same_t, same_o) = save_records-keeps rs t in
          let (v, freed, same_t', same_o') = set_available-keeps found u in
          inr (
            inr (
              v,
              ground arith,
              whole,
              IsClosed-keep s t v found closing (same_t' ∙ same_t) (same_o' ∙ same_o),
            ))
    ]
  ]

  -- Whichever calls of the client fail, a StopTransaction request ends in one of three ways: it
  -- throws and leaves the state; no session of the station has the request's transaction id, and it
  -- answers "Accepted" and leaves the state; or such a session is found and closed (stopped, with
  -- the meter's last value, the time, the cost and the price), and the outbox has grown by the one
  -- event that tells of it, with the cost and the price that the row has got. In this last case
  -- it answers "Accepted" if each entry of the request's data has its samples, and throws if not.
  pub stop_transaction-atomic :
      (s : Db)
      → (stop_transaction c station p s ≡ threw s)
        ⊎ ((stop_transaction c station p s ≡ ok "Accepted" s)
            × (any (is_target station p.transaction_id) s.transactions ≡ false))
        ⊎ ((found : Transaction) × (t : Db) × (((stop_transaction c station p s ≡ threw t)
                × (any lacks_samples p.transaction_data ≡ true))
              ⊎ ((stop_transaction c station p s ≡ ok "Accepted" t)
                  × (any lacks_samples p.transaction_data ≡ false)))
            × Finds (is_target station p.transaction_id) found s.transactions
            × IsClosed s t found)
  unfolding stop_transaction
  stop_transaction-atomic s =
      elim (Option-cases
        (c.client.find_first (is_target station p.transaction_id) s.transactions)) [
          | inl e ↦ inl (ground arith)
          | inr (none, e) ↦ inr (inl (ground arith, l.find_first-none _ s.transactions e))
          | inr (some found, e) ↦
              let hit = l.find_first-some _ s.transactions found e in
              elim (stop_found-cases found s) [
                | inl fails ↦ inl (ground arith)
                | inr (inl (t, throws, lacks, closing)) ↦
                    inr (inr (found, t, inl (ground arith, lacks), hit, closing))
                | inr (inr (t, answers, whole, closing)) ↦
                    inr (inr (found, t, inr (ground arith, whole), hit, closing))
              ]
        ]
