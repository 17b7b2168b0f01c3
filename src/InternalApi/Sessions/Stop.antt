-- ===== src/InternalApi/Sessions/Stop.antt =====
-- When a session is told to stop.
use pvpentech_core.Common.{
  ℕ, zero, suc, ◌≡◌, ◌⊎◌, inl, inr, refl, subst, sym, ap, ◌∙◌, String, true, false, Option, none,
  some, arith, Bool-cases, Option-cases,
}
use pvpentech_core.Commands.{Settlement, answered, failed, Texts, finish_command}
use pvpentech_core.Commands.Finish.{RecordsWhole, finish_command-atomic, begin_command-sends}
use pvpentech_core.Database.Rows.{Transaction, is_running}
use pvpentech_core.Database.Client.{IsClient, Finds}
use pvpentech_core.Database.Monad.{Db, Context, ok}
use pvpentech_core.InternalApi.Remote.{
  Line, send_command, finished, answer_of, map_ocpp_error, is_online, assert_station_online-cases,
}
use pvpentech_core.InternalApi.Sessions.{
  Stopped, is_session, accepted, is_rejected, stop_known, stop_found, stop,
}
use pvpentech_core.Services.{Failure, bad_request, ocpp_rejected, database, Outcome, done, refused}

module _ (c : Context) (l : IsClient c.client) (x : Texts) (n : Line) where
  -- The reason why a stop was accepted.
  pub record IsStopped (id : ℕ) (s t : Db) (a : Stopped) : Type 0 where
    pub session : Transaction
    pub hit : Finds (is_session id) session s.transactions
    pub running : is_running session.status ≡ true
    pub online : is_online n session.station_id ≡ true
    pub station : a.station_id ≡ session.station_id
    pub started : session.ocpp_transaction_id ≡ some a.ocpp_transaction_id
    pub answer : n.settlement ≡ answered a.status
    pub not_rejected : is_rejected a.status ≡ false
    pub sessions : t.transactions ≡ s.transactions

  -- No session changes, and there was a reason for a stop that is accepted.
  abbrev pub Ends : ℕ → Db → Outcome Stopped → Type 0
  Ends id s end =
      ((e : Failure) × (t : Db) × (end ≡ refused e t) × (t.transactions ≡ s.transactions))
      ⊎ ((a : Stopped) × (t : Db) × (end ≡ done a t) × IsStopped id s t a)

  -- A command that is waited for.
  abbrev Answers : Db → Outcome (Option String) → Type 0
  Answers s end =
      ((e : Failure) × (t : Db) × (end ≡ refused e t) × (t.transactions ≡ s.transactions))
      ⊎ ((status : Option String) × (t : Db) × (end ≡ done status t)
          × (n.settlement ≡ answered status)
          × (t.transactions ≡ s.transactions))

  sessions_kept :
      (station action : String) (a : Settlement) (s t : Db)
      → RecordsWhole c l x station action n.message_id a s t
      → t.transactions ≡ s.transactions
  sessions_kept station action a s t (inl e) = ap (λ u. u.transactions) e
  sessions_kept station action a s t (inr recorded) = recorded.transactions

  answered-Answers :
      (station action : String) (a : Settlement) (s t : Db)
      → n.settlement ≡ a
      → t.transactions ≡ s.transactions
      → Answers s (answer_of c n x a (finish_command c x station action n.message_id a t))
  answered-Answers station action (answered status) s t told same =
      let (u, e, whole) = (finish_command-atomic c l x station action n.message_id status "" t).0 in
      inr (
        status,
        u,
        rw e refl,
        told,
        sessions_kept station action (answered status) t u whole ∙ same,
      )
  answered-Answers station action (failed message) s t told same =
      let (u, e, whole) =
        (finish_command-atomic c l x station action n.message_id none message t).1 in
      inl (
        map_ocpp_error x message,
        u,
        rw e refl,
        sessions_kept station action (failed message) t u whole ∙ same,
      )

  finished-Answers :
      (station action : String) (s t : Db)
      → t.transactions ≡ s.transactions
      → Answers s (finished c n x station action (ok tt t))
  unfolding finished
  finished-Answers station action s t same =
      answered-Answers station action n.settlement s t refl same

  send_command-Answers :
      (station action : String) (s : Db)
      → is_online n station ≡ true
      → Answers s (send_command c n x station action s)
  unfolding send_command
  send_command-Answers station action s online =
      let (t, e, campaigns, sessions) =
        begin_command-sends c l x station action n.message_id (some "internal-api") s in
      let at : send_command c n x station action s ≡ finished c n x station action (ok tt t) =
        rw (online, e) refl in
      subst (Answers s) (sym at) (finished-Answers station action s t sessions)

  accepted-Answers :
      (station action : String) (s : Db)
      → is_online n station ≡ true
      → ((e : Failure) × (t : Db) × (accepted c x n station action s ≡ refused e t)
          × (t.transactions ≡ s.transactions))
        ⊎ ((status : Option String) × (t : Db) × (accepted c x n station action s ≡ done status t)
            × (n.settlement ≡ answered status)
            × (is_rejected status ≡ false)
            × (t.transactions ≡ s.transactions))
  unfolding accepted
  accepted-Answers station action s online = elim (send_command-Answers station action s online) [
    | inl (f, t, e, same) ↦ inl (f, t, ground arith, same)
    | inr (status, t, e, told, same) ↦ elim (Bool-cases (is_rejected status)) [
      | inl k ↦ inl (ocpp_rejected, t, ground arith, same)
      | inr k ↦ inr (status, t, ground arith, told, k, same)
    ]
  ]

  stop_known-Ends :
      (id : ℕ) (r : Transaction) (known : Option ℕ) (s : Db)
      → Finds (is_session id) r s.transactions
      → is_running r.status ≡ true
      → is_online n r.station_id ≡ true
      → r.ocpp_transaction_id ≡ known
      → Ends id s (stop_known c x n id r known s)
  unfolding stop_known
  stop_known-Ends id r none s hit running online known = inl (_, s, refl, refl)
  stop_known-Ends id r (some zero) s hit running online known = inl (_, s, refl, refl)
  stop_known-Ends id r (some (suc k)) s hit running online known =
      elim (accepted-Answers r.station_id "RemoteStopTransaction" s online) [
        | inl (f, t, e, same) ↦ inl (f, t, ground arith, same)
        | inr (status, t, e, told, fine, same) ↦ inr (
          record {
            session_id = id;
            station_id = r.station_id;
            ocpp_transaction_id = suc k;
            status = status;
          },
          t,
          ground arith,
          record {
            session = r;
            hit = hit;
            running = running;
            online = online;
            station = refl;
            started = known;
            answer = told;
            not_rejected = fine;
            sessions = same;
          },
        )
      ]

  stop_found-Ends :
      (id : ℕ) (found : Option Transaction) (s : Db)
      → c.client.find_first (is_session id) s.transactions ≡ some found
      → Ends id s (stop_found c x n id found s)
  unfolding stop_found
  stop_found-Ends id none s e = inl (_, s, refl, refl)
  stop_found-Ends id (some r) s e =
      let hit = l.find_first-some (is_session id) s.transactions r e in
      elim (Bool-cases (is_running r.status)) [
        | inr k ↦ inl (bad_request "Session is not active", s, ground arith, refl)
        | inl k ↦ elim (assert_station_online-cases c n r.station_id s) [
          | inl (f, m) ↦ inl (f, s, ground arith, refl)
          | inr (m, online) ↦
              subst (Ends id s) (ground arith)
                (stop_known-Ends id r r.ocpp_transaction_id s hit k online refl)
        ]
      ]

  -- Whichever calls fail, the request to stop a session changes no session itself, and it is refused,
  -- or: the session is pending or active, its station is online, the id that the answer tells is
  -- the one that the charger knows the session by, and the charger answered the command with the
  -- status that the answer tells, which is not "Rejected".
  pub stop-Ends : (id : ℕ) (s : Db) → Ends id s (stop c x n id s)
  unfolding stop
  stop-Ends id s = elim (Option-cases (c.client.find_first (is_session id) s.transactions)) [
    | inl e ↦ inl (database, s, ground arith, refl)
    | inr (found, e) ↦ subst (Ends id s) (ground arith) (stop_found-Ends id found s e)
  ]
