-- ===== src/Stations/Status/Laws.antt =====
-- The events of a connector's status, and the sessions that end when it becomes available.
use pvpentech_core.Common.{
  ◌≡◌, ◌⊎◌, inl, inr, refl, sym, ◌∙◌, ◌&&◌, is_some, str_eq, String, Bool, false, List, [], ◌∷◌,
  ◌++◌, map, Option, none, some, arith, any, change, Option-cases, if◌then◌else◌, ◌==◌,
}
use mathlib.Core.List.{append_assoc, append-nil}
use pvpentech_core.Database.Rows.{Transaction, Connector}
use pvpentech_core.Database.Events.{
  Event, connector, connector_status_changed, fault_raised, fault_cleared, OutboxRow,
}
use pvpentech_core.Database.Client.{IsClient, IsWorking, Finds}
use pvpentech_core.Database.Client.Tables.{any-change_none, any_self, any-and_self, All-map}
use pvpentech_core.Database.Monad.{Db, Context, ok, threw, transact}
use pvpentech_core.Transactions.Start.{is_connector}
use pvpentech_core.Transactions.Outbox.Laws.{write_outbox-cases}
use pvpentech_core.Stations.Status.{
  StatusPayload, connector_status, date_of, error_of, reported, new_connector, save_connector, tell,
  tell_fault, change_connector, runs_on, freed, stop_found, stop_stuck,
}

module _ (c : Context) (l : IsClient c.client) (station : String) (p : StatusPayload) where
  -- The outbox has grown by rows that tell of just these events, in this order.
  abbrev pub Tells : List Event → Db → Db → Type 0
  Tells events s t =
      (rows : List OutboxRow) × (map (λ r. r.event) rows ≡ events) × (t.outbox ≡ s.outbox ++ rows)

  tell-cases :
      (event : Event) (s : Db)
      → (tell c station p event s ≡ threw s)
        ⊎ ((row : OutboxRow) × (row.event ≡ event)
            × (tell c station p event s ≡ ok tt (record s { outbox = s.outbox ++ row ∷ [] })))
  unfolding tell
  tell-cases event s = elim (write_outbox-cases c l event (connector station p.connector_id) s) [
    | inl e ↦ inl (ground arith)
    | inr (row, written, e) ↦ inr (row, written.tells, ground arith)
  ]

  -- A fault that was raised if an error is reported, or one that was cleared if none is and there
  -- was one before.
  abbrev pub fault_events : Option String → Option String → List Event
  fault_events before (some code) = fault_raised station p.connector_id code p.info ∷ []
  fault_events (some old) none = fault_cleared station p.connector_id ∷ []
  fault_events none none = []

  -- The error of the connector's row, and none if there is no row.
  pub data HasError (t : List Connector) : Option String → Type 0 where
    no_row : any (is_connector station p.connector_id) t ≡ false → HasError t none
    of_row :
        (r : Connector) → Finds (is_connector station p.connector_id) r t → HasError t r.error_code

  one_event :
      (event : Event) (s : Db)
      → ((u : Db) × (tell c station p event s ≡ threw u))
        ⊎ ((t : Db) × (tell c station p event s ≡ ok tt t)
            × Tells (event ∷ []) s t
            × (t.connectors ≡ s.connectors)
            × (t.transactions ≡ s.transactions))
  one_event event s = elim (tell-cases event s) [
    | inl e ↦ inl (s, e)
    | inr (row, same, e) ↦
        inr (
          record s { outbox = s.outbox ++ row ∷ [] },
          e,
          (row ∷ [], ground arith, refl),
          refl,
          refl,
        )
  ]

  tell_fault-cases :
      (before error : Option String) (s : Db)
      → ((u : Db) × (tell_fault c station p (is_some before) error s ≡ threw u))
        ⊎ ((t : Db) × (tell_fault c station p (is_some before) error s ≡ ok tt t)
            × Tells (fault_events before error) s t
            × (t.connectors ≡ s.connectors)
            × (t.transactions ≡ s.transactions))
  unfolding tell_fault
  tell_fault-cases w (some code) s = one_event (fault_raised station p.connector_id code p.info) s
  tell_fault-cases (some old) none s = one_event (fault_cleared station p.connector_id) s
  tell_fault-cases none none s = inr (s, refl, ([], refl, sym (append-nil _)), refl, refl)

  -- The error of the request, where "NoError" and the empty text are none.
  abbrev pub reported_error : Option String
  reported_error =
      if str_eq p.error_code ""
      then none
      else if str_eq p.error_code "NoError"
      then none
      else some p.error_code

  -- The connector's row is the reported one, whether it was there or not, and the outbox tells of
  -- the status and then of the fault that was raised or cleared.
  abbrev pub IsReported : Option String → Db → Db → Type 0
  IsReported before s t =
      (t.connectors ≡ (
        if any (is_connector station p.connector_id) s.connectors
        then change (is_connector station p.connector_id)
            (λ r. record r {
              current_status = connector_status p.status;
              error_code = reported_error;
              info = p.info;
              vendor_id = p.vendor_id;
              vendor_error_code = p.vendor_error_code;
              status_timestamp = some (date_of c p.timestamp);
            })
            s.connectors
        else s.connectors
          ++ record {
            station_id = station;
            connector_id = p.connector_id;
            current_status = connector_status p.status;
            error_code = reported_error;
            info = p.info;
            vendor_id = p.vendor_id;
            vendor_error_code = p.vendor_error_code;
            status_timestamp = some (date_of c p.timestamp);
          }
            ∷ []))
      × Tells
          (connector_status_changed station p.connector_id p.status reported_error
            ∷ fault_events before reported_error)
          s t

  pub change_connector-cases :
      (before : Option String) (s : Db)
      → (transact (change_connector c station p (is_some before)) s ≡ threw s)
        ⊎ ((t : Db) × (transact (change_connector c station p (is_some before)) s ≡ ok tt t)
            × (t.transactions ≡ s.transactions)
            × IsReported before s t)
  unfolding change_connector save_connector error_of
  change_connector-cases before s =
      elim (Option-cases (
        c.client.upsert (is_connector station p.connector_id) (reported c station p)
          (new_connector c station p) s.connectors)) [
            | inl e ↦ inl (ground arith)
            | inr (rows, e) ↦
                let saved =
                  l.upsert_lem (is_connector station p.connector_id) (reported c station p)
                    (new_connector c station p) s.connectors rows e in
                elim (tell-cases
                  (connector_status_changed station p.connector_id p.status reported_error)
                  (record s { connectors = rows })) [
                    | inl e' ↦ inl (ground arith)
                    | inr (row, same, e') ↦
                        elim (tell_fault-cases before reported_error
                          (record s { connectors = rows; outbox = s.outbox ++ row ∷ [] })) [
                            | inl (u, e'') ↦ inl (ground arith)
                            | inr (t, e'', (more, told, grown), kept, sessions) ↦ inr (
                              t,
                              ground arith,
                              sessions,
                              (
                                kept ∙ saved,
                                (
                                  row ∷ more,
                                  ground arith,
                                  grown ∙ append_assoc s.outbox (row ∷ []) more,
                                ),
                              ),
                            )
                          ]
                  ]
          ]

  abbrev is_stuck : List Transaction → Transaction → Bool
  is_stuck stuck t = any (λ x. x.id == t.id) stuck

  stop_found-ends :
      (stuck : List Transaction) (s t : Db)
      → c.client.find_many (runs_on c station p) s.transactions ≡ some stuck
      → stop_found c station p stuck s ≡ ok tt t
      → any (runs_on c station p) t.transactions ≡ false
  unfolding stop_found
  stop_found-ends [] s t found h =
      let none_there =
        l.find_many_lem (runs_on c station p) (runs_on c station p) s.transactions [] found in
      let same : s.transactions ≡ t.transactions = ground arith in
      rw (← same) (sym (any-and_self (runs_on c station p) s.transactions) ∙ sym none_there)
  stop_found-ends (r ∷ rs) s t found h =
      elim (Option-cases
        (c.client.update_many (is_stuck (r ∷ rs)) (freed c station p) s.transactions)) [
          | inl e ↦ absurd (ground arith)
          | inr (rows, e) ↦
              let same : t.transactions ≡ rows = ground arith in
              rw
                (
                  same,
                  l.update_many_lem (is_stuck (r ∷ rs)) (freed c station p) s.transactions rows e,
                )
                (any-change_none (is_stuck (r ∷ rs)) (runs_on c station p) (freed c station p)
                  s.transactions
                  (All-map _ _ s.transactions
                    (λ x in_table running.
                      l.find_many_lem (runs_on c station p) (λ y. y.id == x.id) s.transactions
                        (r ∷ rs) found
                      ∙ in_table running)
                    (any_self (runs_on c station p) (λ x y. runs_on c station p y && y.id == x.id)
                      s.transactions (λ x running. ground arith)))
                  (λ x. ground arith))
        ]

  stop_found-works :
      (works : IsWorking c.client) (stuck : List Transaction) (s : Db)
      → (t : Db) × (stop_found c station p stuck s ≡ ok tt t)
  unfolding stop_found
  stop_found-works works [] s = (s, refl)
  stop_found-works works (r ∷ rs) s =
      elim (Option-cases
        (c.client.update_many (is_stuck (r ∷ rs)) (freed c station p) s.transactions)) [
          | inl e ↦ absurd (works.updates_many _ _ s.transactions e)
          | inr (rows, e) ↦ (record s { transactions = rows }, ground arith)
        ]

  -- While the database answers, the auto-stop of a connector that is available again returns, and
  -- then no session of the station is left pending or active on that connector.
  pub stop_stuck-ends :
      (works : IsWorking c.client) (s : Db)
      → (t : Db) × (stop_stuck c station p s ≡ ok tt t)
        × (any (runs_on c station p) t.transactions ≡ false)
  unfolding stop_stuck
  stop_stuck-ends works s =
      elim (Option-cases (c.client.find_many (runs_on c station p) s.transactions)) [
        | inl e ↦ absurd (works.finds_many _ s.transactions e)
        | inr (stuck, e) ↦
            let (t, returns) = stop_found-works works stuck s in
            (t, ground arith, stop_found-ends stuck s t e returns)
      ]
