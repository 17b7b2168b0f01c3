-- ===== src/Relay/Drain/Ticks.antt =====
-- Ticks one after the other, each with what the broker answers then and with its time.
use pvpentech_core.Common.{
  ℕ, ◌+◌, ◌-◌, ◌≤◌, ◌≡◌, inl, inr, refl, subst, sym, ◌∙◌, Bool, true, false, not, List, [], ◌∷◌,
  Option, none, some, is_some, arith, All, any, length, Option-cases,
}
use pvpentech_core.Database.Events.{OutboxRow}
use pvpentech_core.Database.Client.{Client, IsClient, IsWorking, Finds}
use pvpentech_core.Relay.{
  Broker, Relay, is_waiting, batch_size, process_all, run_page, run_tick, tick,
}
use pvpentech_core.Relay.Attempts.{after_attempt, process_event_lem}
use pvpentech_core.Relay.Laws.{IsLive, tick-IsLive}
use pvpentech_core.Relay.Work.{
  remaining, ids, distinct, remaining_none, none_remaining, attempts_of, attempts_of-Finds,
  contains-Finds,
}
use pvpentech_core.Relay.Drain.{
  IsPaging, IsPageOf, Within, process_all-Goes, there, after_attempt-outbox, ids-marked,
  remaining-marked_less, Within-marked,
}

abbrev pub is_unpublished : OutboxRow → Bool
is_unpublished r = not (is_some r.published_at)

module _ (client : Client) (l : IsClient client) (works : IsWorking client) where
  module _ (broker : Broker) (paging : IsPaging broker) (now : ℕ) where
    abbrev limit_of : List OutboxRow → ℕ → ℕ
    limit_of t n = attempts_of n t

    All-Within :
        (limit : ℕ → ℕ) (t : List OutboxRow)
        → ((r : OutboxRow) → Finds (λ x. true) r t → limit r.id ≡ r.attempts)
        → Within client l works broker now limit t
    All-Within limit [] h = tt
    All-Within limit (x ∷ xs) h =
        (omega (arith, h x (inl (refl, refl))), All-Within limit xs (λ r k. h r (inr k)))

    page-IsPageOf :
        (t page : List OutboxRow)
        → distinct (ids t) ≡ true
        → All (λ r. Finds is_waiting r t) page
        → IsPageOf client l works broker now (limit_of t) (ids t) page
    page-IsPageOf t [] d h = tt
    page-IsPageOf t (ev ∷ page) d (hit, h) = (
      (sym (attempts_of-Finds is_waiting ev t d hit), contains-Finds is_waiting ev t hit),
      page-IsPageOf t page d h,
    )

    -- A page that is not empty: its first event has one attempt less to come.
    record Steps (s t : Relay) : Type 0 where
      pub same : ids t.outbox ≡ ids s.outbox
      pub less : remaining t.outbox ≤ remaining s.outbox - 1

    run_page-Steps :
        (page : Option (List OutboxRow)) (s : Relay)
        → broker.page is_waiting batch_size s.outbox ≡ page
        → distinct (ids s.outbox) ≡ true
        → Steps s (run_page client broker now page s)
    unfolding run_page process_all
    run_page-Steps none s e d = absurd (paging.answers s.outbox e)
    run_page-Steps (some []) s e d = record {
      same = refl;
      less = omega (arith, none_remaining s.outbox (paging.empty s.outbox e));
    }
    run_page-Steps (some (ev ∷ page)) s e d =
        let t = s.outbox in
        let (hit, rest) = paging.rows t (ev ∷ page) e in
        let ((own, known), others) = page-IsPageOf t (ev ∷ page) d (hit, rest) in
        let within = All-Within (limit_of t) t (λ r k. attempts_of-Finds (λ x. true) r t d k) in
        let answer = broker.publish ev in
        let after = after_attempt client l works broker now ev answer s in
        let shape = after_attempt-outbox client l works broker now ev answer s in
        let same : ids after.outbox ≡ ids t =
          rw shape (ids-marked client l works broker now ev answer t) in
        let low : remaining after.outbox + 1 ≤ remaining t = rw shape (
          remaining-marked_less client l works broker now ev answer (limit_of t) own t within
            hit) in
        let goes =
          process_all-Goes client l works broker now (limit_of t) page after
            (subst (λ present. IsPageOf client l works broker now (limit_of t) present page)
              (sym same) others)
            (rw shape
              (Within-marked client l works broker now ev answer (limit_of t) own t within)) in
        rw
          (process_event_lem client l works broker now ev s
            (there client l works broker now ev t known))
          (record { same = goes.same ∙ same; less = omega (arith, goes.less, low) })

    tick-Steps :
        (s : Relay)
        → s.running ≡ false
        → distinct (ids s.outbox) ≡ true
        → Steps s (tick client broker now s)
    unfolding tick run_tick
    tick-Steps s idle d =
        let steps =
          run_page-Steps (broker.page is_waiting batch_size s.outbox) (record s { running = true })
            refl d in
        rw idle (record { same = steps.same; less = steps.less })

  -- The ticks of the timer.
  pub ticks : List (Broker × ℕ) → Relay → Relay
  ticks [] s = s
  ticks ((broker, now) ∷ later) s = ticks later (tick client broker now s)

  published_rows :
      (t : List OutboxRow) → All IsLive t → any is_waiting t ≡ false → any is_unpublished t ≡ false
  published_rows [] h idle = refl
  published_rows (x ∷ xs) (live, h) idle = elim (Option-cases x.published_at) [
    | inl e ↦ absurd (ground (arith, live e))
    | inr (at, e) ↦ ground (arith, published_rows xs h (ground arith))
  ]

  -- While the database answers, and each tick reads its page as it should, the relay comes to an end
  -- with every event, whatever the broker answers to the publications: from an outbox whose ids
  -- differ, and where each event that is not published has attempts left, as many ticks as there are
  -- attempts left in all leave no event that is not marked as published.
  pub ticks-published :
      (later : List (Broker × ℕ)) (s : Relay)
      → All (λ x. IsPaging x.0) later
      → s.running ≡ false
      → distinct (ids s.outbox) ≡ true
      → All IsLive s.outbox
      → remaining s.outbox ≤ length later
      → any is_unpublished (ticks later s).outbox ≡ false
  unfolding ticks
  ticks-published [] s paging idle d live few =
      published_rows s.outbox live (remaining_none s.outbox (omega (arith, few)))
  ticks-published ((broker, now) ∷ later) s (reads, paging) idle d live few =
      let steps = tick-Steps broker reads now s idle d in
      let (alive, ends) = tick-IsLive client l broker now s live in
      let stopped : (tick client broker now s).running ≡ false = elim ends [
        | inl h ↦ absurd (cc (h.0))
        | inr h ↦ h.1
      ] in
      ticks-published later (tick client broker now s) paging stopped (rw steps.same d) alive
        (omega (arith, steps.less, few))
