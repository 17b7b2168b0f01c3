-- ===== src/Transactions/Start/Unmatched.antt =====
-- A start that no pending session awaits.
use pvpentech_core.Common.{
  ℕ, ◌≡◌, ◌⊎◌, inl, inr, refl, String, List, [], ◌∷◌, ◌++◌, some, arith, str_eq_refl, Option-cases,
}
use pvpentech_core.Database.Rows.{Transaction}
use pvpentech_core.Database.Events.{transaction, transaction_started}
use pvpentech_core.Database.Client.{IsClient, Finds}
use pvpentech_core.Database.Client.Tables.{Finds-change, Finds-last, Finds-new}
use pvpentech_core.Database.Monad.{Db, Context, ok, threw, transact}
use pvpentech_core.Transactions.Outbox.Laws.{write_outbox-cases}
use pvpentech_core.Transactions.Stop.{is_target}
use pvpentech_core.Transactions.Start.{
  StartPayload, has_id, is_station, new_transaction, started_event, find_station, open_transaction,
}
use pvpentech_core.Transactions.Start.Opened.{IsOpened}

module _ (c : Context) (l : IsClient c.client) (station : String) (p : StartPayload) where
  abbrev pub with_id : ℕ → Transaction → Transaction
  with_id n t = record t { ocpp_transaction_id = some n }

  -- The first `$transaction`, cut after its second call.
  abbrev pub Opens : Db → Type 0
  Opens s =
      (transact (open_transaction c station p) s ≡ threw s)
      ⊎ ((t : Db) × (r : Transaction) × (transact (open_transaction c station p) s ≡ ok r t)
          × IsOpened c l station p s t r.id)

  opened_rest :
      (s : Db) (created updated : Transaction) (rows grown : List Transaction)
      → c.client.create (λ r. r.id) (new_transaction c station p) s.transactions
        ≡ some (created, grown)
      → c.client.update (has_id created.id) (with_id created.id) grown ≡ some (updated, rows)
      → Opens s
  unfolding open_transaction find_station
  opened_rest s created updated rows grown e e' =
      let (n, built, longer) =
        l.create_lem (λ r. r.id) (new_transaction c station p) s.transactions grown created e in
      let (old, hit, became, shape) =
        l.update_lem (has_id created.id) (with_id created.id) grown rows updated e' in
      let old_is : old ≡ created =
        Finds-new (has_id created.id) old created s.transactions
          (l.create-fresh (λ x. x.id) (new_transaction c station p) s.transactions grown created
            (λ n. refl) e)
          (rw longer at hit) in
      let s2 : Db = record s { transactions = rows } in
      let held : Finds (is_target station updated.id) updated rows =
        rw (shape, longer, became, old_is)
          (Finds-change (has_id created.id) (is_target station created.id) (with_id created.id)
            created (s.transactions ++ created ∷ [])
            (Finds-last (has_id created.id) created s.transactions (ground arith))
            (ground (arith, str_eq_refl station))) in
      elim (Option-cases (c.client.find_first (is_station station) s.stations)) [
        | inl none_e ↦ inl (ground arith)
        | inr (site, site_e) ↦
            elim (write_outbox-cases c l
              (transaction_started (started_event c station p updated site))
              (transaction updated.id) s2) [
                | inl w ↦ inl (ground arith)
                | inr (row, written, w) ↦ inr (
                  record s { transactions = rows; outbox = s.outbox ++ row ∷ [] },
                  updated,
                  ground arith,
                  record {
                    session = updated;
                    row = row;
                    event = started_event c station p updated site;
                    found = held;
                    same_id = refl;
                    is_active = ground arith;
                    same_meter = ground arith;
                    outbox = refl;
                    tells = written.tells;
                    told_id = refl;
                    told_meter = ground arith;
                    told_station = refl;
                    unpublished = written.unpublished;
                  },
                )
              ]
      ]

  pub open_transaction-cases : (s : Db) → Opens s
  unfolding open_transaction
  open_transaction-cases s =
      elim (Option-cases
        (c.client.create (λ r. r.id) (new_transaction c station p) s.transactions)) [
          | inl e ↦ inl (ground arith)
          | inr ((created, grown), e) ↦
              elim (Option-cases (c.client.update (has_id created.id) (with_id created.id) grown)) [
                | inl e' ↦ inl (ground arith)
                | inr ((updated, rows), e') ↦ opened_rest s created updated rows grown e e'
              ]
        ]
