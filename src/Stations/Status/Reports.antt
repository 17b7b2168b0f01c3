-- ===== src/Stations/Status/Reports.antt =====
-- A connector's report in statusNotification.handler.ts, whichever of its calls fail.
use pvpentech_core.Common.{
  ◌≡◌, ◌⊎◌, inl, inr, refl, ◌∙◌, String, true, false, List, [], ◌∷◌, Option, none, some, arith, any,
  str_eq, Option-cases, Bool-cases, ◌==◌,
}
use pvpentech_core.Database.Rows.{Transaction, Connector}
use pvpentech_core.Database.Client.{IsClient}
use pvpentech_core.Database.Monad.{Db, Context, ok, threw, final}
use pvpentech_core.Transactions.Start.{is_connector}
use pvpentech_core.Stations.Status.{
  StatusPayload, runs_on, freed, stop_found, stop_stuck, error_column, report_connector,
}
use pvpentech_core.Stations.Status.Laws.{
  HasError, no_row, of_row, IsReported, change_connector-cases,
}

module _ (c : Context) (l : IsClient c.client) (station : String) (p : StatusPayload) where
  error_column-HasError :
      (t : List Connector) (found : Option Connector)
      → c.client.find_first (is_connector station p.connector_id) t ≡ some found
      → HasError c l station p t (error_column c station p found)
  error_column-HasError t none e = no_row (l.find_first-none _ t e)
  error_column-HasError t (some r) e = of_row r (l.find_first-some _ t r e)

  stop_found-frame :
      (stuck : List Transaction) (s : Db)
      → ((final (stop_found c station p stuck s)).connectors ≡ s.connectors)
        × ((final (stop_found c station p stuck s)).outbox ≡ s.outbox)
  unfolding stop_found
  stop_found-frame [] s = (refl, refl)
  stop_found-frame (r ∷ rs) s =
      elim (Option-cases (
        c.client.update_many (λ t. any (λ x. x.id == t.id) (r ∷ rs)) (freed c station p)
          s.transactions)) [
            | inl e ↦ (ground arith, ground arith)
            | inr (rows, e) ↦ (ground arith, ground arith)
          ]

  stop_stuck-frame :
      (s : Db)
      → ((final (stop_stuck c station p s)).connectors ≡ s.connectors)
        × ((final (stop_stuck c station p s)).outbox ≡ s.outbox)
  unfolding stop_stuck
  stop_stuck-frame s =
      elim (Option-cases (c.client.find_many (runs_on c station p) s.transactions)) [
        | inl e ↦ (ground arith, ground arith)
        | inr (stuck, e) ↦
            let run : stop_stuck c station p s ≡ stop_found c station p stuck s = ground arith in
            rw run (stop_found-frame stuck s)
      ]

  IsReported-keep :
      (before : Option String) (s t u : Db)
      → IsReported c l station p before s t
      → u.connectors ≡ t.connectors
      → u.outbox ≡ t.outbox
      → IsReported c l station p before s u
  IsReported-keep before s t u (stored, (rows, told, grown)) same_c same_o =
      (same_c ∙ stored, (rows, told, same_o ∙ grown))

  -- What is left of a report: the error of before, and what was stored and told; unless the
  -- connector is available, no session has changed and the report returns.
  abbrev pub Reports : Db → Type 0
  Reports s =
      let run = report_connector c station p s in
      (before : Option String) × HasError c l station p s.connectors before
      × IsReported c l station p before s (final run)
      × ((str_eq p.status "Available" ≡ true)
          ⊎ ((str_eq p.status "Available" ≡ false)
              × (run ≡ ok tt (final run))
              × ((final run).transactions ≡ s.transactions)))

  -- Whichever calls of the client fail, a connector's report either throws and leaves the state, or
  -- the connector's row has the reported status, error, texts and time, and the outbox has grown by
  -- just the events that are due: the status; a raised fault if the request has an error other
  -- than "NoError"; a cleared fault if it has none and the connector's row had one before. In the
  -- second case a report of any other status than "Available" returns and changes no session.
  pub report_connector-atomic : (s : Db) → (report_connector c station p s ≡ threw s) ⊎ Reports s
  unfolding report_connector
  report_connector-atomic s =
      elim (Option-cases (c.client.find_first (is_connector station p.connector_id) s.connectors)) [
        | inl e ↦ inl (ground arith)
        | inr (found, e) ↦
            let before = error_column c station p found in
            elim (change_connector-cases c l station p before s) [
              | inl k ↦ inl (ground arith)
              | inr (t, k, sessions, reported) ↦
                  let error = error_column-HasError s.connectors found e in
                  elim (Bool-cases (str_eq p.status "Available")) [
                    | inl free ↦
                        let (same_c, same_o) = stop_stuck-frame t in
                        let run : report_connector c station p s ≡ stop_stuck c station p t =
                          ground arith in
                        inr (
                          before,
                          error,
                          rw run (
                              IsReported-keep before s t (final (stop_stuck c station p t)) reported
                                same_c same_o),
                          inl free,
                        )
                    | inr other ↦
                        let run : report_connector c station p s ≡ ok tt t = ground arith in
                        inr (
                          before,
                          error,
                          rw run reported,
                          inr (other, rw run refl, rw run sessions),
                        )
                  ]
            ]
      ]
