-- ===== src/Transactions/Start/Laws.antt =====
-- What startTransaction.handler.ts leaves behind, whichever of its calls fail.
use pvpentech_core.Common.{◌≡◌, ◌⊎◌, inl, inr, refl, ◌∙◌, String, none, some, arith, Option-cases}
use pvpentech_core.Database.Rows.{Transaction}
use pvpentech_core.Database.Client.{IsClient}
use pvpentech_core.Database.Monad.{Db, Context, ok, threw}
use pvpentech_core.Transactions.Start.{
  StartPayload, StartReply, is_awaited, is_station, find_station, start_transaction, accept,
}
use pvpentech_core.Transactions.Start.Opened.{IsOpened, IsOpened-keeps}
use pvpentech_core.Transactions.Start.Unmatched.{open_transaction-cases}
use pvpentech_core.Transactions.Start.Matched.{activate-cases, check_goal-keeps, set_charging-keeps}

module _ (c : Context) (l : IsClient c.client) (station : String) (p : StartPayload) where
  start_awaited-atomic :
      (s : Db) (awaited : Transaction)
      → c.client.find_first (is_awaited station p) s.transactions ≡ some (some awaited)
      → (start_transaction c station p s ≡ threw s)
        ⊎ ((t : Db) × (reply : StartReply) × (start_transaction c station p s ≡ ok reply t)
            × (reply.status ≡ "Accepted")
            × IsOpened c l station p s t reply.transaction_id)
  unfolding start_transaction find_station
  start_awaited-atomic s awaited e =
      elim (Option-cases (c.client.find_first (is_station station) s.stations)) [
        | inl none_e ↦ inl (ground arith)
        | inr (site, site_e) ↦
            elim (activate-cases c l station p s awaited
              (l.find_first-some _ s.transactions awaited e)) [
                | inl fails ↦ inl (ground arith)
                | inr (t, activates, o) ↦
                    let (u, checks, same_t, same_o) =
                      check_goal-keeps c l station p awaited awaited.goal_type awaited.goal_value
                        t in
                    let (v, charges, same_t', same_o') = set_charging-keeps c l station p u in
                    inr (
                      v,
                      accept c station p awaited.id,
                      ground arith,
                      refl,
                      IsOpened-keeps c l station p o (same_t' ∙ same_t) (same_o' ∙ same_o),
                    )
              ]
      ]

  -- Whichever calls of the client fail, a StartTransaction request either throws and leaves the
  -- transactions and the outbox, or it answers "Accepted" with the id of a session that is now
  -- active with the request's meter reading, that a StopTransaction of this id from this station
  -- finds, and that the one new event of the outbox tells of.
  pub start_transaction-atomic :
      (s : Db)
      → (start_transaction c station p s ≡ threw s)
        ⊎ ((t : Db) × (reply : StartReply) × (start_transaction c station p s ≡ ok reply t)
            × (reply.status ≡ "Accepted")
            × IsOpened c l station p s t reply.transaction_id)
  unfolding start_transaction
  start_transaction-atomic s =
      elim (Option-cases (c.client.find_first (is_awaited station p) s.transactions)) [
        | inl e ↦ inl (ground arith)
        | inr (none, e) ↦ elim (open_transaction-cases c l station p s) [
          | inl fails ↦ inl (ground arith)
          | inr (t, r, opens, o) ↦ inr (t, accept c station p r.id, ground arith, refl, o)
        ]
        | inr (some awaited, e) ↦ start_awaited-atomic s awaited e
      ]
