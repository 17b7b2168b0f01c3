-- ===== src/Server/Laws.antt =====
-- What the events of a socket leave behind.
use pvpentech_core.Common.{
  ℕ, ◌≡◌, ◌≢◌, ◌⊎◌, inl, inr, refl, ◌∙◌, String, [], ◌∷◌, ◌++◌, Option, none, some, arith, change,
  Option-cases, lookup-insert, lookup-remove, str_eq_refl,
}
use pvpentech_core.Connections.{get, register, unregister, Connections}
use pvpentech_core.Database.Rows.{Station, OfflineLog, communication_fault}
use pvpentech_core.Database.Events.{station_offline, station, OutboxRow}
use pvpentech_core.Database.Client.{IsClient}
use pvpentech_core.Database.Monad.{Db, Context, ok, ignore, transact, final}
use pvpentech_core.Transactions.Start.{is_station, site_of}
use pvpentech_core.Transactions.Outbox.Laws.{IsWritten, write_outbox-cases}
use pvpentech_core.Stations.Status.{write_offline_log}
use pvpentech_core.Server.{
  Server, on_connection, fault_station, close_reason, go_offline, record_close, on_close, on_error,
}

-- What is found of a station after it is registered or unregistered.
get-register :
    (station_id : String) (ws : ℕ) (m : Connections)
    → get station_id (register station_id ws m).0 ≡ some ws
unfolding get register
get-register station_id ws m =
    rw (lookup-insert station_id station_id ws m, str_eq_refl station_id) refl

get-unregister :
    (station_id : String) (m : Connections) → get station_id (unregister station_id m) ≡ none
unfolding get unregister
get-unregister station_id m =
    rw (lookup-remove station_id station_id m, str_eq_refl station_id) refl

module _ (c : Context) (l : IsClient c.client) (station_id : String) where
  -- A close of the socket that a new one has replaced changes nothing: the station stays registered
  -- with the new socket, and nothing of the database changes.
  pub on_close-replaced :
      (old new : ℕ) (code reason : String) (s : Server)
      → old ≢ new
      → on_close c station_id old code reason (on_connection station_id new s).0
        ≡ (on_connection station_id new s).0
  unfolding on_close
  on_close-replaced old new code reason s differ =
      rw (get-register station_id new s.connections) (ground arith)

  -- The station gets its communication fault and the one event of it is written, or neither.
  abbrev pub GoesOffline : String → Db → Db → Type 0
  GoesOffline reason s t =
      ((t.stations ≡ s.stations) × (t.outbox ≡ s.outbox))
      ⊎ ((row : OutboxRow) × IsWritten (station_offline station_id reason) (station station_id) row
          × (t.stations
              ≡ change (is_station station_id) (λ r. record r { status = communication_fault })
                  s.stations)
          × (t.outbox ≡ s.outbox ++ row ∷ []))

  abbrev new_log : Option Station → OfflineLog
  new_log found = record {
    station_id = station_id;
    site_id = site_of found;
    status = communication_fault;
  }

  write_offline_log-frame :
      (s : Db)
      → (t : Db) × (write_offline_log c station_id communication_fault s ≡ ok tt t)
        × (t.stations ≡ s.stations)
        × (t.outbox ≡ s.outbox)
  unfolding write_offline_log
  write_offline_log-frame s =
      elim (Option-cases (c.client.find_first (is_station station_id) s.stations)) [
        | inl e ↦ (s, ground arith, refl, refl)
        | inr (found, e) ↦
            elim (Option-cases (c.client.create (λ _. 0) (λ _. new_log found) s.offline_logs)) [
              | inl k ↦ (s, ground arith, refl, refl)
              | inr ((r, rows), k) ↦ (record s { offline_logs = rows }, ground arith, refl, refl)
            ]
      ]

  go_offline-cases :
      (reason : String) (s : Db)
      → (t : Db) × (ignore (transact (go_offline c station_id reason)) s ≡ ok tt t)
        × GoesOffline reason s t
  unfolding go_offline
  go_offline-cases reason s =
      elim (Option-cases (c.client.update (is_station station_id) fault_station s.stations)) [
        | inl e ↦ (s, ground arith, inl (refl, refl))
        | inr ((r, rows), e) ↦
            let (old, hit, became, shape) =
              l.update_lem (is_station station_id) fault_station s.stations rows r e in
            elim (write_outbox-cases c l (station_offline station_id reason) (station station_id)
              (record s { stations = rows })) [
                | inl w ↦ (s, ground arith, inl (refl, refl))
                | inr (row, written, w) ↦ (
                  record s { stations = rows; outbox = s.outbox ++ row ∷ [] },
                  ground arith,
                  inr (row, written, shape, refl),
                )
              ]
      ]

  record_close-cases :
      (reason : String) (s : Db) → GoesOffline reason s (final (record_close c station_id reason s))
  unfolding record_close
  record_close-cases reason s =
      let (t, e, told) = go_offline-cases reason s in
      let (u, k, same_stations, same_outbox) = write_offline_log-frame t in
      let run : record_close c station_id reason s ≡ ok tt u = ground arith in
      rw run (elim told [
        | inl (a, b) ↦ inl (same_stations ∙ a, same_outbox ∙ b)
        | inr (row, written, a, b) ↦ inr (row, written, same_stations ∙ a, same_outbox ∙ b)
      ])

  on_close_step :
      (ws : ℕ) (code reason : String) (s : Server)
      → get station_id s.connections ≡ some ws
      → on_close c station_id ws code reason s ≡ record s {
        connections = unregister station_id s.connections;
        db = final (record_close c station_id (close_reason c station_id code reason) s.db);
      }
  unfolding on_close
  on_close_step ws code reason s e = rw e (ground arith)

  -- When the socket that the station is registered with closes, the station is no longer registered
  -- and, whichever calls of the client fail, either neither the stations nor the outbox change, or
  -- the station has a communication fault and the outbox has grown by the one event that tells of it.
  pub on_close-current :
      (ws : ℕ) (code reason : String) (s : Server)
      → get station_id s.connections ≡ some ws
      → (get station_id (on_close c station_id ws code reason s).connections ≡ none)
        × GoesOffline
            (close_reason c station_id code reason)
            s.db
            (on_close c station_id ws code reason s).db
  on_close-current ws code reason s e = rw (on_close_step ws code reason s e) (
    get-unregister station_id s.connections,
    record_close-cases (close_reason c station_id code reason) s.db,
  )

  on_error_step :
      (ws : ℕ) (s : Server)
      → get station_id s.connections ≡ some ws
      → on_error c station_id ws s ≡ record s { connections = unregister station_id s.connections }
  unfolding on_error
  on_error_step ws s e = rw e (ground arith)

  -- Where the error event of the registered socket comes before its close event, the close changes
  -- nothing: the station is no longer registered, and the database is as it was.
  pub on_close-on_error :
      (ws : ℕ) (code reason : String) (s : Server)
      → get station_id s.connections ≡ some ws
      → on_close c station_id ws code reason (on_error c station_id ws s)
        ≡ record s { connections = unregister station_id s.connections }
  unfolding on_close
  on_close-on_error ws code reason s e =
      rw (on_error_step ws s e, get-unregister station_id s.connections) refl
