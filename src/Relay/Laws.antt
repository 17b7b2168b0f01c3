-- ===== src/Relay/Laws.antt =====
-- What one event's turn and one tick of outboxRelay.ts leave behind.
use pvpentech_core.Common.{
  ℕ, ◌+◌, ◌<◌, ◌≡◌, ◌⊎◌, inl, inr, sym, subst, String, true, false, List, [], ◌∷◌, ◌++◌, Option,
  none, some, arith, All, change, Option-cases, Bool-cases, leb, ◌==◌,
}
use pvpentech_core.Database.Events.{OutboxRow}
use pvpentech_core.Database.Client.{Client, IsClient}
use pvpentech_core.Relay.{
  Broker, Relay, Step, next, abort, state_of, max_attempts, mark_published, mark_failed, mark_dead,
  same_row, set_row, is_waiting, batch_size, bury, fail_event, confirm, process_event, process_all,
  run_page, tick, and_then,
}

-- An event that is not published has attempts left, so that the query of a later tick finds it.
abbrev pub IsLive : OutboxRow → Type 0
IsLive r = r.published_at ≡ none → r.attempts < max_attempts

module _ (client : Client) (l : IsClient client) (broker : Broker) (now : ℕ) where
  All-change :
      (ev : OutboxRow) (f : OutboxRow → OutboxRow) (t : List OutboxRow)
      → ((r : OutboxRow) → IsLive r → IsLive (f r))
      → All IsLive t
      → All IsLive (change (same_row client broker now ev) f t)
  All-change ev f [] keeps h = tt
  All-change ev f (x ∷ xs) keeps (p, h) = elim (Bool-cases (x.id == ev.id)) [
    | inl e ↦ rw e (keeps x p, All-change ev f xs keeps h)
    | inr e ↦ rw e (p, All-change ev f xs keeps h)
  ]

  -- The update is rejected and nothing changes, or it has changed the row.
  pub set_row-cases :
      (ev : OutboxRow) (f : OutboxRow → OutboxRow) (s : Relay)
      → (set_row client broker now ev f s ≡ abort s)
        ⊎ (set_row client broker now ev f s
            ≡ next (record s { outbox = change (same_row client broker now ev) f s.outbox }))
  unfolding set_row
  set_row-cases ev f s =
      elim (Option-cases (client.update (same_row client broker now ev) f s.outbox)) [
        | inl e ↦ inl (ground arith)
        | inr ((r, t), e) ↦
            let (old, hit, became, shape) =
              l.update_lem (same_row client broker now ev) f s.outbox t r e in
            inr (ground arith)
      ]

  abbrev LivesIn : Step → Type 0
  LivesIn step = All IsLive (state_of step).outbox

  set_row-IsLive :
      (ev : OutboxRow) (f : OutboxRow → OutboxRow) (s : Relay)
      → ((r : OutboxRow) → IsLive r → IsLive (f r))
      → All IsLive s.outbox
      → LivesIn (set_row client broker now ev f s)
  set_row-IsLive ev f s keeps h = elim (set_row-cases ev f s) [
    | inl e ↦ subst LivesIn (sym e) h
    | inr e ↦ subst LivesIn (sym e) (All-change ev f s.outbox keeps h)
  ]

  bury-outbox : (ev : OutboxRow) (s : Relay) → (bury client broker now ev s).outbox ≡ s.outbox
  unfolding bury
  bury-outbox ev s = ground arith

  fail_event-IsLive :
      (ev : OutboxRow) (reason : String) (s : Relay)
      → All IsLive s.outbox
      → LivesIn (fail_event client broker now ev reason s)
  unfolding fail_event
  fail_event-IsLive ev reason s h = elim (Bool-cases (leb max_attempts (ev.attempts + 1))) [
    | inl e ↦ rw e (
        set_row-IsLive ev (mark_dead client broker now (ev.attempts + 1) reason)
          (bury client broker now ev s) (λ r live gone. cc) (rw (bury-outbox ev s) h))
    | inr e ↦ rw e (
        set_row-IsLive ev (mark_failed client broker now (ev.attempts + 1) reason) s
          (λ r live here. ground arith) h)
  ]

  confirm-IsLive :
      (ev : OutboxRow) (s : Relay) → All IsLive s.outbox → LivesIn (confirm client broker now ev s)
  unfolding confirm
  confirm-IsLive ev s h =
      elim (Option-cases (
        client.update (same_row client broker now ev) (mark_published client broker now)
          s.outbox)) [
            | inl e ↦ rw (e, confirm) (fail_event-IsLive ev broker.update_error s h)
            | inr ((r, t), e) ↦
                let (old, hit, became, shape) =
                  l.update_lem (same_row client broker now ev) (mark_published client broker now)
                    s.outbox t r e in
                let at : confirm client broker now ev s ≡ next (record s { outbox = t }) =
                  ground arith in
                subst LivesIn (sym at) (
                  rw shape (
                    All-change ev (mark_published client broker now) s.outbox (λ r live gone. cc)
                      h))
          ]

  process_event-IsLive :
      (ev : OutboxRow) (s : Relay)
      → All IsLive s.outbox
      → LivesIn (process_event client broker now ev s)
  unfolding process_event
  process_event-IsLive ev s h = elim (Option-cases (broker.publish ev)) [
    | inl e ↦
        rw (e, process_event) (confirm-IsLive ev (record s { stream = s.stream ++ ev ∷ [] }) h)
    | inr (reason, e) ↦ rw (e, process_event) (fail_event-IsLive ev reason s h)
  ]

  and_then-IsLive :
      (step : Step) (f : Relay → Step)
      → LivesIn step
      → ((t : Relay) → All IsLive t.outbox → LivesIn (f t))
      → LivesIn (and_then client broker now step f)
  and_then-IsLive (next t) f h k = k t h
  and_then-IsLive (abort t) f h k = h

  process_all-IsLive :
      (evs : List OutboxRow) (s : Relay)
      → All IsLive s.outbox
      → LivesIn (process_all client broker now evs s)
  unfolding process_all
  process_all-IsLive [] s h = h
  process_all-IsLive (ev ∷ evs) s h =
      and_then-IsLive (process_event client broker now ev s) (process_all client broker now evs)
        (process_event-IsLive ev s h) (λ t. process_all-IsLive evs t)

  run_page-IsLive :
      (page : Option (List OutboxRow)) (s : Relay)
      → All IsLive s.outbox
      → All IsLive (run_page client broker now page s).outbox
  unfolding run_page
  run_page-IsLive none s h = h
  run_page-IsLive (some evs) s h = process_all-IsLive evs s h

  -- Whatever the broker and the client do, a tick keeps it so that each event that is not published
  -- has attempts left; it ends with the relay not running, unless it found it running, and then it
  -- changes nothing.
  pub tick-IsLive :
      (s : Relay)
      → All IsLive s.outbox
      → All IsLive (tick client broker now s).outbox
        × (((s.running ≡ true) × (tick client broker now s ≡ s))
            ⊎ ((s.running ≡ false) × ((tick client broker now s).running ≡ false)))
  unfolding tick
  tick-IsLive s h = elim (Bool-cases s.running) [
    | inl e ↦ (rw e h, inl (e, rw e))
    | inr e ↦ (
      rw e (
          run_page-IsLive (broker.page is_waiting batch_size s.outbox) (record s { running = true })
            h),
      inr (e, rw e),
    )
  ]
