-- ===== src/Transactions/Timeout.antt =====
-- packages/core/src/jobs/processors/sessionTimeout.processor.ts
use pvpentech_core.Common.{
  ◌+◌, ◌≡◌, refl, not, Bool, false, ◌&&◌, some, ltb, any, keep, change, arith, Option-cases, inl,
  inr,
}
use pvpentech_core.Database.Rows.{Transaction, is_pending, failed}
use pvpentech_core.Database.Client.{IsClient, IsWorking}
use pvpentech_core.Database.Client.Tables.{any-change_none, keep-change, All-every}
use pvpentech_core.Database.Monad.{Db, Context, M, ok, puts}

module _ (c : Context) where
  -- Pending, and from before the cutoff, five minutes ago.
  abbrev pub is_abandoned : Transaction → Bool
  is_abandoned t = is_pending t.status && ltb (t.time_start + 300000) c.now

  abbrev pub timed_out : Transaction → Transaction
  timed_out t = record t {
    status = failed;
    fail_reason = some "session_timeout";
    time_end = some c.now;
  }

  pub session_timeout : M (Unit {0})
  session_timeout s =
      puts (c.client.update_many is_abandoned timed_out s.transactions)
        (λ t. record s { transactions = t }) s

  -- A session that waits and is not abandoned yet.
  abbrev pub still_awaited : Transaction → Bool
  still_awaited t = is_pending t.status && not (is_abandoned t)

  -- While the database answers, the job returns; then no session has been pending for more than
  -- five minutes, and the pending ones that are younger stay as they are.
  pub session_timeout_lem :
      (l : IsClient c.client) (works : IsWorking c.client) (s : Db)
      → (t : Db) × (session_timeout s ≡ ok tt t)
        × (any is_abandoned t.transactions ≡ false)
        × (keep still_awaited t.transactions ≡ keep still_awaited s.transactions)
  unfolding session_timeout
  session_timeout_lem l works s =
      elim (Option-cases (c.client.update_many is_abandoned timed_out s.transactions)) [
        | inl e ↦ absurd (works.updates_many is_abandoned timed_out s.transactions e)
        | inr (rows, e) ↦
            let shape : rows ≡ change is_abandoned timed_out s.transactions =
              l.update_many_lem is_abandoned timed_out s.transactions rows e in
            (
              record s { transactions = rows },
              ground arith,
              rw shape (
                  any-change_none is_abandoned is_abandoned timed_out s.transactions
                    (All-every _ s.transactions (λ r h. h)) (λ r. refl)),
              rw shape (
                  keep-change is_abandoned still_awaited timed_out s.transactions
                    (λ r h. ground arith) (λ r h. refl)),
            )
      ]
