-- ===== src/Stations/Boot/Laws.antt =====
-- What a boot leaves behind, whichever of its calls fail.
use pvpentech_core.Common.{
  ◌≡◌, ◌⊎◌, inl, inr, refl, ap, ◌∙◌, not, ◌&&◌, str_eq, subst, List, String, true, false, [], ◌∷◌,
  ◌++◌, Option, none, some, arith, any, keep, Option-cases,
}
use pvpentech_core.Database.Rows.{Station, Transaction, is_running, stopped}
use pvpentech_core.Database.Events.{station, station_online, OutboxRow}
use pvpentech_core.Database.Client.{IsClient}
use pvpentech_core.Database.Client.Tables.{any-change_none, All-every, keep-change}
use pvpentech_core.Database.Monad.{Db, Context, ok, threw, transact, ignore}
use pvpentech_core.Transactions.Start.{is_station}
use pvpentech_core.Transactions.Outbox.Laws.{IsWritten, write_outbox-cases}
use pvpentech_core.Stations.Boot.{
  BootPayload, BootReply, runs_at, booted_station, boot_station, save_station, go_online,
  reset_session, stop_stuck, boot_reply, boot_notification,
}

module _ (c : Context) (l : IsClient c.client) (station_id : String) (p : BootPayload) where
  -- The `$transaction`: all of it or nothing.
  save_station-cases :
      (found : Option Station) (s : Db)
      → (save_station c station_id p found s ≡ threw s)
        ⊎ ((t : Db) × (save_station c station_id p found s ≡ ok tt t)
            × (t.transactions ≡ s.transactions)
            × (t.outbox ≡ s.outbox))
  unfolding save_station
  save_station-cases none s =
      elim (Option-cases
        (c.client.create (λ _. 0) (λ _. booted_station c station_id p) s.stations)) [
          | inl e ↦ inl (ground arith)
          | inr ((r, t), e) ↦ inr (record s { stations = t }, ground arith, refl, refl)
        ]
  save_station-cases (some r) s =
      elim (Option-cases
        (c.client.update (is_station station_id) (boot_station c station_id p) s.stations)) [
          | inl e ↦ inl (ground arith)
          | inr ((r, t), e) ↦ inr (record s { stations = t }, ground arith, refl, refl)
        ]

  -- The one new event tells that the station is online.
  abbrev pub TellsOnline : Db → Db → Type 0
  TellsOnline s t =
      (row : OutboxRow) × IsWritten
        (station_online station_id p.charge_point_vendor p.charge_point_model p.firmware_version)
        (station station_id) row
      × (t.outbox ≡ s.outbox ++ row ∷ [])

  go_online-cases :
      (found : Option Station) (s : Db)
      → (transact (go_online c station_id p found) s ≡ threw s)
        ⊎ ((t : Db) × (transact (go_online c station_id p found) s ≡ ok tt t)
            × (t.transactions ≡ s.transactions)
            × TellsOnline s t)
  unfolding go_online
  go_online-cases found s = elim (save_station-cases found s) [
    | inl e ↦ inl (ground arith)
    | inr (t, saved, same_t, same_o) ↦
        elim (write_outbox-cases c l
          (station_online station_id p.charge_point_vendor p.charge_point_model p.firmware_version)
          (station station_id) t) [
            | inl w ↦ inl (ground arith)
            | inr (row, written, w) ↦ inr (
              record t { outbox = t.outbox ++ row ∷ [] },
              ground arith,
              same_t,
              (row, written, ap (λ o. o ++ row ∷ []) same_o),
            )
          ]
  ]

  -- No session of the station runs, and those of other stations are as they were.
  abbrev pub NoneRuns : List Transaction → List Transaction → Type 0
  NoneRuns s t =
      (any (runs_at station_id) t ≡ false)
      × (keep (λ r. not (str_eq r.station_id station_id)) t
          ≡ keep (λ r. not (str_eq r.station_id station_id)) s)

  -- The sessions are as they were, and the update that stops them was rejected.
  abbrev pub Untouched : List Transaction → List Transaction → Type 0
  Untouched s t =
      (t ≡ s)
      × (c.client.update_many (λ r. str_eq r.station_id station_id && is_running r.status)
            (λ r. record r {
              status = stopped;
              time_end = some c.now;
              fail_reason = some "BootNotification:Reset";
            })
            s
          ≡ none)

  stop_stuck-cases :
      (s : Db)
      → (t : Db) × (ignore (stop_stuck c station_id p) s ≡ ok tt t)
        × (t.outbox ≡ s.outbox)
        × (Untouched s.transactions t.transactions ⊎ NoneRuns s.transactions t.transactions)
  unfolding stop_stuck
  stop_stuck-cases s =
      elim (Option-cases
        (c.client.update_many (runs_at station_id) (reset_session c station_id p) s.transactions)) [
          | inl e ↦ (s, ground arith, refl, inl (refl, e))
          | inr (rows, e) ↦
              let same =
                l.update_many_lem (runs_at station_id) (reset_session c station_id p) s.transactions
                  rows e in
              (
                record s { transactions = rows },
                ground arith,
                refl,
                inr (
                  rw same (
                      any-change_none (runs_at station_id) (runs_at station_id)
                        (reset_session c station_id p) s.transactions
                        (All-every (λ r. runs_at station_id r ≡ true → runs_at station_id r ≡ true)
                          s.transactions (λ r h. h))
                        (λ r. ground arith)),
                  rw same (
                      keep-change (runs_at station_id) (λ r. not (str_eq r.station_id station_id))
                        (reset_session c station_id p) s.transactions (λ r h. ground arith)
                        (λ r h. ground arith)),
                ),
              )
        ]

  -- A BootNotification either throws and leaves the transactions and the outbox, or it answers
  -- "Accepted"; then the one new event tells that the station is online, whether or not sessions
  -- were stopped, and either the sessions are untouched and the update that stops the pending and
  -- active ones was rejected, or no session of the station is left running and those of other
  -- stations are as they were.
  pub boot_notification-cases :
      (s : Db)
      → (boot_notification c station_id p s ≡ threw s)
        ⊎ ((t : Db) × (reply : BootReply) × (boot_notification c station_id p s ≡ ok reply t)
            × (reply.status ≡ "Accepted")
            × TellsOnline s t
            × (Untouched s.transactions t.transactions ⊎ NoneRuns s.transactions t.transactions))
  unfolding boot_notification boot_reply
  boot_notification-cases s =
      elim (Option-cases (c.client.find_first (is_station station_id) s.stations)) [
        | inl e ↦ inl (ground arith)
        | inr (found, e) ↦ elim (go_online-cases found s) [
          | inl fails ↦ inl (ground arith)
          | inr (t, goes, same_t, tells) ↦
              let (u, stops, same_o, sessions) = stop_stuck-cases t in
              inr (
                u,
                boot_reply c station_id p,
                ground arith,
                refl,
                (tells.0, tells.1, same_o ∙ tells.2),
                subst (λ z. Untouched z u.transactions ⊎ NoneRuns z u.transactions) same_t sessions,
              )
        ]
      ]
