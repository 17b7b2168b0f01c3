-- ===== src/Transactions/Start/Matched.antt =====
-- A start that a pending session awaits.
use pvpentech_core.Common.{
  ℕ, ◌≡◌, ◌⊎◌, inl, inr, refl, String, true, List, [], ◌∷◌, ◌++◌, Option, none, some, arith,
  Option-cases,
}
use pvpentech_core.Database.Rows.{Transaction, GoalType, charging}
use pvpentech_core.Database.Events.{transaction, transaction_started}
use pvpentech_core.Database.Client.{IsClient, Finds}
use pvpentech_core.Database.Client.Tables.{Finds-test, Finds-weaken, Finds-change}
use pvpentech_core.Database.Monad.{Db, Context, ok, threw, transact, ignore}
use pvpentech_core.Transactions.Outbox.Laws.{write_outbox-cases}
use pvpentech_core.Transactions.Stop.{is_target}
use pvpentech_core.Transactions.Start.{
  StartPayload, is_awaited, has_id, is_station, is_connector, started, activated_event,
  find_station, activate, check_goal, set_charging, unit_price_vnd, new_connector,
}
use pvpentech_core.Transactions.Start.Opened.{IsOpened}

module _ (c : Context) (l : IsClient c.client) (station : String) (p : StartPayload) where
  -- The second `$transaction`, for a session that was awaited.
  abbrev pub Activates : Transaction → Db → Type 0
  Activates awaited s =
      (transact (activate c station p awaited) s ≡ threw s)
      ⊎ ((t : Db) × (transact (activate c station p awaited) s ≡ ok tt t)
          × IsOpened c l station p s t awaited.id)

  activated_rest :
      (s : Db) (awaited updated : Transaction) (rows : List Transaction)
      → Finds (is_awaited station p) awaited s.transactions
      → c.client.update (has_id awaited.id) (started c station p awaited) s.transactions
        ≡ some (updated, rows)
      → Activates awaited s
  unfolding activate find_station
  activated_rest s awaited updated rows hit e =
      let (old, at, became, shape) =
        l.update_lem (has_id awaited.id) (started c station p awaited) s.transactions rows updated
          e in
      let awaits : is_awaited station p awaited ≡ true =
        Finds-test (is_awaited station p) awaited s.transactions hit in
      let held : Finds (is_target station awaited.id) (started c station p awaited awaited) rows =
        rw shape (
          Finds-change (has_id awaited.id) (is_target station awaited.id)
            (started c station p awaited) awaited s.transactions
            (Finds-weaken (is_awaited station p) (has_id awaited.id) awaited s.transactions hit
              (ground arith))
            (ground arith)) in
      elim (Option-cases (c.client.find_first (is_station station) s.stations)) [
        | inl none_e ↦ inl (ground arith)
        | inr (site, site_e) ↦
            elim (write_outbox-cases c l
              (transaction_started (activated_event c station p awaited site))
              (transaction awaited.id) (record s { transactions = rows })) [
                | inl w ↦ inl (ground arith)
                | inr (row, written, w) ↦ inr (
                  record s { transactions = rows; outbox = s.outbox ++ row ∷ [] },
                  ground arith,
                  record {
                    session = started c station p awaited awaited;
                    row = row;
                    event = activated_event c station p awaited site;
                    found = held;
                    same_id = refl;
                    is_active = refl;
                    same_meter = refl;
                    outbox = refl;
                    tells = written.tells;
                    told_id = refl;
                    told_meter = refl;
                    told_station = refl;
                    unpublished = written.unpublished;
                  },
                )
              ]
      ]

  pub activate-cases :
      (s : Db) (awaited : Transaction)
      → Finds (is_awaited station p) awaited s.transactions
      → Activates awaited s
  unfolding activate
  activate-cases s awaited hit =
      elim (Option-cases
        (c.client.update (has_id awaited.id) (started c station p awaited) s.transactions)) [
          | inl e ↦ inl (ground arith)
          | inr ((updated, rows), e) ↦ activated_rest s awaited updated rows hit e
        ]

  pub check_goal-keeps :
      (t : Transaction) (goal : Option GoalType) (value : Option ℕ) (s : Db)
      → (u : Db) × (check_goal c station p t goal value s ≡ ok tt u)
        × (u.transactions ≡ s.transactions)
        × (u.outbox ≡ s.outbox)
  unfolding check_goal
  check_goal-keeps t (some kind) (some value) s =
      elim (Option-cases (
        c.enqueue
          (record {
            session_id = t.session_id;
            goal_type = kind;
            goal_value = value;
            unit_price_vnd = unit_price_vnd;
          })
          s.goal_checks)) [
            | inl e ↦ (s, ground arith, refl, refl)
            | inr (jobs, e) ↦ (record s { goal_checks = jobs }, ground arith, refl, refl)
          ]
  check_goal-keeps t none value s = (s, refl, refl, refl)
  check_goal-keeps t (some kind) none s = (s, refl, refl, refl)

  pub set_charging-keeps :
      (s : Db)
      → (u : Db) × (ignore (set_charging c station p) s ≡ ok tt u)
        × (u.transactions ≡ s.transactions)
        × (u.outbox ≡ s.outbox)
  unfolding set_charging
  set_charging-keeps s =
      elim (Option-cases (
        c.client.upsert (is_connector station p.connector_id)
          (λ r. record r { current_status = charging }) (new_connector c station p) s.connectors)) [
            | inl e ↦ (s, ground arith, refl, refl)
            | inr (t, e) ↦ (record s { connectors = t }, ground arith, refl, refl)
          ]
