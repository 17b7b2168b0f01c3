-- ===== src/Relay/Drain.antt =====
-- How the ticks of the relay empty the outbox while the database answers.
pub mod Ticks
use pvpentech_core.Common.{
  ℕ, suc, ◌+◌, ◌-◌, ◌≤◌, ltb, leb, Option, ◌≡◌, ◌≢◌, inl, inr, refl, subst, sym, ap, ◌∙◌, String,
  Bool, true, false, not, ◌&&◌, List, [], ◌∷◌, ◌++◌, none, some, is_some, arith, All, any, change,
  Option-cases, Bool-cases, map, ◌==◌, length, if◌then◌else◌,
}
use pvpentech_core.Database.Events.{OutboxRow}
use pvpentech_core.Database.Client.{Client, IsClient, IsWorking, Finds}
use pvpentech_core.Relay.{
  Broker, Relay, next, state_of, max_attempts, mark_published, mark_failed, mark_dead, same_row,
  is_waiting, batch_size, process_event, process_all, run_page, run_tick, tick,
}
use pvpentech_core.Relay.Attempts.{after_attempt, process_event_lem}
use pvpentech_core.Relay.Laws.{IsLive, tick-IsLive}
use pvpentech_core.Relay.Work.{
  cost, remaining, ids, contains, distinct, remaining_none, none_remaining, attempts_of,
  attempts_of-Finds, any-contains,
}

-- A page has rows of the table that pass, and is empty only if no row passes.
pub record IsPaging (broker : Broker) : Type 0 where
  pub answers : (t : List OutboxRow) → broker.page is_waiting batch_size t ≢ none
  pub rows :
      (t page : List OutboxRow)
      → broker.page is_waiting batch_size t ≡ some page
      → All (λ r. Finds is_waiting r t) page
  pub empty :
      (t : List OutboxRow)
      → broker.page is_waiting batch_size t ≡ some []
      → any is_waiting t ≡ false

module _ (client : Client) (l : IsClient client) (works : IsWorking client) where
  module _ (broker : Broker) (now : ℕ) where
    -- What an attempt makes of the event's row.
    abbrev mark_of : OutboxRow → Option String → OutboxRow → OutboxRow
    mark_of ev none = mark_published client broker now
    mark_of ev (some reason) =
        if ltb (ev.attempts + 1) max_attempts
        then mark_failed client broker now (ev.attempts + 1) reason
        else mark_dead client broker now (ev.attempts + 1) reason

    after_attempt-outbox :
        (ev : OutboxRow) (answer : Option String) (s : Relay)
        → (after_attempt client l works broker now ev answer s).outbox
          ≡ change (same_row client broker now ev) (mark_of ev answer) s.outbox
    after_attempt-outbox ev none s = refl
    after_attempt-outbox ev (some reason) s = ground arith

    mark_of-id :
        (ev : OutboxRow) (answer : Option String) (r : OutboxRow) → (mark_of ev answer r).id ≡ r.id
    mark_of-id ev none r = refl
    mark_of-id ev (some reason) r = ground arith

    mark_of-attempts :
        (ev : OutboxRow) (answer : Option String) (r : OutboxRow)
        → r.attempts ≤ ev.attempts + 1
        → (mark_of ev answer r).attempts ≤ ev.attempts + 1
    mark_of-attempts ev none r h = h
    mark_of-attempts ev (some reason) r h = ground arith

    cost-mark_of :
        (ev : OutboxRow) (answer : Option String) (r : OutboxRow)
        → r.attempts ≤ ev.attempts + 1
        → cost (mark_of ev answer r) ≤ cost r
    unfolding cost
    cost-mark_of ev none r h = ground arith
    cost-mark_of ev (some reason) r h = elim (Option-cases r.published_at) [
      | inl e ↦ ground arith
      | inr (at, e) ↦ ground arith
    ]

    cost-mark_of_less :
        (ev : OutboxRow) (answer : Option String) (r : OutboxRow)
        → r.attempts ≡ ev.attempts
        → is_waiting r ≡ true
        → cost (mark_of ev answer r) + 1 ≤ cost r
    unfolding cost
    cost-mark_of_less ev none r same h = ground arith
    cost-mark_of_less ev (some reason) r same h = elim (Option-cases r.published_at) [
      | inl e ↦ ground arith
      | inr (at, e) ↦ ground arith
    ]

    -- No row has more than one attempt over its limit.
    abbrev Within : (ℕ → ℕ) → List OutboxRow → Type 0
    Within limit t = All (λ r. r.attempts ≤ limit r.id + 1) t

    module _ (ev : OutboxRow) (answer : Option String) where
      abbrev marked : List OutboxRow → List OutboxRow
      marked t = change (same_row client broker now ev) (mark_of ev answer) t

      ids-marked : (t : List OutboxRow) → ids (marked t) ≡ ids t
      ids-marked [] = refl
      ids-marked (x ∷ xs) = ground (arith, mark_of-id ev answer x, ids-marked xs)

      module _ (limit : ℕ → ℕ) (own : ev.attempts ≡ limit ev.id) where
        in_limit :
            (r : OutboxRow)
            → r.attempts ≤ limit r.id + 1
            → (r.id == ev.id) ≡ true
            → r.attempts ≤ ev.attempts + 1
        in_limit r h e =
            let same : r.id ≡ ev.id = ground arith in
            rw own (subst (λ n. r.attempts ≤ limit n + 1) same h)

        Within-marked : (t : List OutboxRow) → Within limit t → Within limit (marked t)
        Within-marked [] h = tt
        Within-marked (x ∷ xs) (here, rest) = elim (Bool-cases (x.id == ev.id)) [
          | inl e ↦
              let same : x.id ≡ ev.id = ground arith in
              let low = mark_of-attempts ev answer x (in_limit x here e) in
              let at : limit (mark_of ev answer x).id ≡ ev.attempts =
                ap limit (mark_of-id ev answer x) ∙ ap limit same ∙ sym own in
              rw e (rw at low, Within-marked xs rest)
          | inr e ↦ rw e (here, Within-marked xs rest)
        ]

        remaining-marked :
            (t : List OutboxRow) → Within limit t → remaining (marked t) ≤ remaining t
        unfolding remaining
        remaining-marked [] h = ground arith
        remaining-marked (x ∷ xs) (here, rest) = elim (Bool-cases (x.id == ev.id)) [
          | inl e ↦
              ground (arith, cost-mark_of ev answer x (in_limit x here e), remaining-marked xs rest)
          | inr e ↦ ground (arith, remaining-marked xs rest)
        ]

        remaining-marked_less :
            (t : List OutboxRow)
            → Within limit t
            → Finds is_waiting ev t
            → remaining (marked t) + 1 ≤ remaining t
        unfolding remaining
        remaining-marked_less [] h hit = elim hit [ ]
        remaining-marked_less (x ∷ xs) (here, rest) (inl hit) =
            let less = cost-mark_of_less ev answer ev refl hit.1 in
            rw hit.0 (ground (arith, less, remaining-marked xs rest))
        remaining-marked_less (x ∷ xs) (here, rest) (inr hit) = elim (Bool-cases (x.id == ev.id)) [
          | inl e ↦ ground (
            arith,
            cost-mark_of ev answer x (in_limit x here e),
            remaining-marked_less xs rest hit,
          )
          | inr e ↦ ground (arith, remaining-marked_less xs rest hit)
        ]

    -- The rows of a page, as the outbox had them when it was read.
    abbrev IsPageOf : (ℕ → ℕ) → List ℕ → List OutboxRow → Type 0
    IsPageOf limit present page =
        All (λ ev. (ev.attempts ≡ limit ev.id) × (contains ev.id present ≡ true)) page

    there :
        (ev : OutboxRow) (t : List OutboxRow)
        → contains ev.id (ids t) ≡ true
        → any (same_row client broker now ev) t ≡ true
    there ev t h = any-contains ev t ∙ h

    -- The ids stay, and no attempt that was made is owed again.
    record Goes (s t : Relay) : Type 0 where
      pub same : ids t.outbox ≡ ids s.outbox
      pub less : remaining t.outbox ≤ remaining s.outbox

    process_all-Goes :
        (limit : ℕ → ℕ) (page : List OutboxRow) (s : Relay)
        → IsPageOf limit (ids s.outbox) page
        → Within limit s.outbox
        → Goes s (state_of (process_all client broker now page s))
    unfolding process_all
    process_all-Goes limit [] s h w = record { same = refl; less = ground arith }
    process_all-Goes limit (ev ∷ page) s ((own, known), h) w =
        let answer = broker.publish ev in
        let after = after_attempt client l works broker now ev answer s in
        let shape = after_attempt-outbox ev answer s in
        let same : ids after.outbox ≡ ids s.outbox = rw shape (ids-marked ev answer s.outbox) in
        let rest =
          process_all-Goes limit page after
            (subst (λ present. IsPageOf limit present page) (sym same) h)
            (rw shape (Within-marked ev answer limit own s.outbox w)) in
        let low : remaining after.outbox ≤ remaining s.outbox =
          rw shape (remaining-marked ev answer limit own s.outbox w) in
        rw (process_event_lem client l works broker now ev s (there ev s.outbox known))
          (record { same = rest.same ∙ same; less = omega (arith, rest.less, low) })
