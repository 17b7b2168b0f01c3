-- ===== src/Commands/Sweep.antt =====
-- The cleanups of the command records, in packages/core/src/services/ocppCommandResult.service.ts.
use pvpentech_core.Common.{
  ℕ, ◌≡◌, inl, inr, refl, not, Bool, false, List, [], ◌∷◌, arith, any, keep, change, Option-cases,
  ◌&&◌, ◌∙◌,
}
use pvpentech_core.Database.Rows.{CommandResult}
use pvpentech_core.Database.Client.{IsClient, IsWorking}
use pvpentech_core.Database.Client.Tables.{any-change_none, keep-change, All-every}
use pvpentech_core.Database.Monad.{Db, Context, ok}
use pvpentech_core.Commands.{is_left, give_up, bootstrap_cleanup, is_stale, sweep_stale_pending}

change_none :
    {Row : Type 0} (p : Row → Bool) (f : Row → Row) (t : List Row)
    → any p t ≡ false
    → change p f t ≡ t
change_none p f [] h = refl
change_none p f (x ∷ xs) h = ground (arith, change_none p f xs)

none_stale :
    (c : Context) (timeout_ms : ℕ) (t : List CommandResult)
    → any (is_left c) t ≡ false
    → any (is_stale c timeout_ms) t ≡ false
none_stale c timeout_ms [] h = refl
none_stale c timeout_ms (x ∷ xs) h = ground (arith, none_stale c timeout_ms xs)

-- A command that waits and is not overdue.
abbrev pub is_waiting : Context → ℕ → CommandResult → Bool
is_waiting c timeout_ms r = is_left c r && not (is_stale c timeout_ms r)

module _ (c : Context) (l : IsClient c.client) (works : IsWorking c.client) where
  -- While the database answers, the sweep returns, no overdue command is left pending, and the
  -- commands that wait and are not overdue stay as they are.
  pub sweep_stale_pending_lem :
      (timeout_ms : ℕ) (s : Db)
      → (t : Db) × (sweep_stale_pending c timeout_ms s ≡ ok tt t)
        × (any (is_stale c timeout_ms) t.commands ≡ false)
        × (keep (is_waiting c timeout_ms) t.commands ≡ keep (is_waiting c timeout_ms) s.commands)
  unfolding sweep_stale_pending
  sweep_stale_pending_lem timeout_ms s =
      let p = is_stale c timeout_ms in
      let f = give_up c "timeout detected by sweeper" in
      elim (Option-cases (c.client.update_many p f s.commands)) [
        | inl e ↦ absurd (works.updates_many p f s.commands e)
        | inr (rows, e) ↦
            let shape : rows ≡ change p f s.commands = l.update_many_lem p f s.commands rows e in
            (
              record s { commands = rows },
              ground arith,
              rw shape (
                  any-change_none p p f s.commands (All-every _ s.commands (λ r h. h)) (λ r. refl)),
              rw shape (
                  keep-change p (is_waiting c timeout_ms) f s.commands (λ r h. ground arith)
                    (λ r h. refl)),
            )
      ]

  sweep_nothing :
      (timeout_ms : ℕ) (t : Db)
      → any (is_left c) t.commands ≡ false
      → sweep_stale_pending c timeout_ms t ≡ ok tt t
  unfolding sweep_stale_pending
  sweep_nothing timeout_ms t h =
      let p = is_stale c timeout_ms in
      let f = give_up c "timeout detected by sweeper" in
      elim (Option-cases (c.client.update_many p f t.commands)) [
        | inl e ↦ absurd (works.updates_many p f t.commands e)
        | inr (rows, e) ↦
            let shape : rows ≡ t.commands =
              l.update_many_lem p f t.commands rows e
              ∙ change_none p f t.commands (none_stale c timeout_ms t.commands h) in
            rw (e, shape) refl
      ]

  -- While the database answers, the cleanup at the start of the server returns and leaves no
  -- command pending, and a sweep that comes next changes nothing.
  pub bootstrap_cleanup_lem :
      (timeout_ms : ℕ) (s : Db)
      → (t : Db) × (bootstrap_cleanup c s ≡ ok tt t)
        × (any (is_left c) t.commands ≡ false)
        × (sweep_stale_pending c timeout_ms t ≡ ok tt t)
  unfolding bootstrap_cleanup
  bootstrap_cleanup_lem timeout_ms s =
      let p = is_left c in
      let f = give_up c "pending at server bootstrap (previous instance shutdown)" in
      elim (Option-cases (c.client.update_many p f s.commands)) [
        | inl e ↦ absurd (works.updates_many p f s.commands e)
        | inr (rows, e) ↦
            let shape : rows ≡ change p f s.commands = l.update_many_lem p f s.commands rows e in
            let gone : any p rows ≡ false =
              rw shape (
                any-change_none p p f s.commands (All-every _ s.commands (λ r h. h)) (λ r. refl)) in
            (
              record s { commands = rows },
              ground arith,
              gone,
              sweep_nothing timeout_ms (record s { commands = rows }) gone,
            )
      ]
