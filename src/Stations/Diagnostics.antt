-- ===== src/Stations/Diagnostics.antt =====
-- packages/core/src/ocpp/handlers/diagnosticsStatusNotification.handler.ts
use pvpentech_core.Common.{
  ℕ, ◌≡◌, ◌≢◌, ◌⊎◌, inl, inr, refl, ◌∙◌, List, ◌==◌, ◌&&◌, ltb, String, Bool, true, false, Option,
  none, some, str_eq, arith, any, change, if◌then◌else◌, Option-cases,
}
use pvpentech_core.Database.Rows.{
  DiagnosticsRequest, DiagnosticsStatus, idle, uploading, uploaded, upload_failed, Station,
}
use pvpentech_core.Database.Client.{IsClient, Finds}
use pvpentech_core.Database.Monad.{Db, Context, M, ok, ◌>>◌, ignore, gives}
use pvpentech_core.Transactions.Start.{is_station}

-- A status that is not in `VALID_STATUSES` is Idle.
abbrev pub diagnostics_status : String → DiagnosticsStatus
diagnostics_status status =
    if str_eq status "Uploaded"
    then uploaded
    else if str_eq status "UploadFailed"
    then upload_failed
    else if str_eq status "Uploading"
    then uploading
    else idle

abbrev status_name : DiagnosticsStatus → String
status_name idle = "Idle"
status_name uploading = "Uploading"
status_name uploaded = "Uploaded"
status_name upload_failed = "UploadFailed"

abbrev is_final : DiagnosticsStatus → Bool
is_final uploaded = true
is_final upload_failed = true
is_final _ = false

abbrev is_not_completed : Option ℕ → Bool
is_not_completed none = true
is_not_completed (some _) = false

module _ (c : Context) (station : String) where
  abbrev pub is_open_request : DiagnosticsRequest → Bool
  is_open_request r = str_eq r.station_id station && is_not_completed r.completed_at

  abbrev pub requested_at : DiagnosticsRequest → ℕ
  requested_at r = r.requested_at

  abbrev pub has_request_id : ℕ → DiagnosticsRequest → Bool
  has_request_id id r = r.id == id

  abbrev pub report_request : DiagnosticsStatus → DiagnosticsRequest → DiagnosticsRequest
  report_request status r = record r {
    status = status;
    completed_at = if is_final status then some c.now else none;
  }

  set_diagnostics_status : DiagnosticsStatus → M Station
  set_diagnostics_status status s =
      gives
        (c.client.update (is_station station)
          (λ r. record r { diagnostics_status = some (status_name status) }) s.stations)
        (λ t. record s { stations = t }) s

  -- What is found, or nothing when the call fails.
  abbrev found_request : Option (Option DiagnosticsRequest) → Option DiagnosticsRequest
  found_request none = none
  found_request (some r) = r

  update_request : DiagnosticsStatus → Option DiagnosticsRequest → M (Unit {0})
  update_request status none s = ok tt s
  update_request status (some r) s =
      ignore
        (λ s.
          gives (c.client.update (has_request_id r.id) (report_request status) s.diagnostics)
            (λ t. record s { diagnostics = t }) s)
        s

  report_progress : DiagnosticsStatus → M (Unit {0})
  unfolding update_request
  report_progress idle s = ok tt s
  report_progress status s =
      update_request status
        (found_request (c.client.find_latest is_open_request requested_at s.diagnostics)) s

  pub diagnostics_status_notification : String → M (Unit {0})
  unfolding set_diagnostics_status report_progress
  diagnostics_status_notification status = do
    ignore (set_diagnostics_status (diagnostics_status status))
    report_progress (diagnostics_status status)

  -- An upload that succeeded or failed closes the request now; any other report leaves it open.
  abbrev pub closed_at : DiagnosticsStatus → Option ℕ
  closed_at uploaded = some c.now
  closed_at upload_failed = some c.now
  closed_at uploading = none
  closed_at idle = none

  reported_same :
      (status : DiagnosticsStatus) (p : DiagnosticsRequest → Bool) (t : List DiagnosticsRequest)
      → change p (report_request status) t
        ≡ change p (λ x. record x { status = status; completed_at = closed_at status }) t
  reported_same uploaded p t = refl
  reported_same upload_failed p t = refl
  reported_same uploading p t = refl
  reported_same idle p t = refl

  -- One request has changed, the latest of the station's that was open, and it has the status.
  abbrev pub LatestReports : DiagnosticsStatus → Db → Db → Type 0
  LatestReports status s t =
      (r : DiagnosticsRequest) × Finds is_open_request r s.diagnostics
      × (any (λ x. is_open_request x && ltb r.requested_at x.requested_at) s.diagnostics ≡ false)
      × (t.diagnostics
          ≡ change (has_request_id r.id)
              (λ x. record x { status = status; completed_at = closed_at status }) s.diagnostics)

  module _ (l : IsClient c.client) where
    update_request-cases :
        (status : DiagnosticsStatus) (s : Db)
        → (t : Db) × (update_request status
              (found_request (c.client.find_latest is_open_request requested_at s.diagnostics))
              s
            ≡ ok tt t)
          × (t.outbox ≡ s.outbox)
          × ((t.diagnostics ≡ s.diagnostics) ⊎ LatestReports status s t)
    unfolding update_request
    update_request-cases status s =
        elim (Option-cases (c.client.find_latest is_open_request requested_at s.diagnostics)) [
          | inl e ↦ (s, ground arith, refl, inl refl)
          | inr (none, e) ↦ (s, ground arith, refl, inl refl)
          | inr (some r, e) ↦
              elim (Option-cases
                (c.client.update (has_request_id r.id) (report_request status) s.diagnostics)) [
                  | inl k ↦ (s, ground arith, refl, inl refl)
                  | inr ((q, rows), k) ↦
                      let (hit, top) =
                        l.find_latest-some is_open_request requested_at s.diagnostics r e in
                      let (old, hits, became, shape) =
                        l.update_lem (has_request_id r.id) (report_request status) s.diagnostics
                          rows q k in
                      (
                        record s { diagnostics = rows },
                        ground arith,
                        refl,
                        inr (
                          r,
                          hit,
                          top,
                          shape ∙ reported_same status (has_request_id r.id) s.diagnostics,
                        ),
                      )
                ]
        ]

    abbrev pub Outcome : DiagnosticsStatus → Db → Db → Type 0
    Outcome status s t =
        (t.diagnostics ≡ s.diagnostics) ⊎ ((status ≢ idle) × LatestReports status s t)

    told :
        (status : DiagnosticsStatus)
        → status ≢ idle
        → (s t : Db) → (t.diagnostics ≡ s.diagnostics) ⊎ LatestReports status s t
        → Outcome status s t
    told status named s t (inl e) = inl e
    told status named s t (inr e) = inr (named, e)

    report_progress-cases :
        (status : DiagnosticsStatus) (s : Db)
        → (t : Db) × (report_progress status s ≡ ok tt t)
          × (t.outbox ≡ s.outbox)
          × Outcome status s t
    unfolding report_progress
    report_progress-cases idle s = (s, refl, refl, inl refl)
    report_progress-cases uploading s =
        let (t, e, o, h) = update_request-cases uploading s in
        (t, e, o, told uploading (λ k. absurd (cc)) s t h)
    report_progress-cases uploaded s =
        let (t, e, o, h) = update_request-cases uploaded s in
        (t, e, o, told uploaded (λ k. absurd (cc)) s t h)
    report_progress-cases upload_failed s =
        let (t, e, o, h) = update_request-cases upload_failed s in
        (t, e, o, told upload_failed (λ k. absurd (cc)) s t h)

    -- Whichever calls of the client fail, the handler returns and writes no event, and either the
    -- requests are as they were, or the status is not Idle and the latest of the station's open
    -- requests has it, with the time of now as its end if the upload succeeded or failed, and with
    -- none if it goes on.
    pub diagnostics_status_notification_lem :
        (status : String) (s : Db)
        → (t : Db) × (diagnostics_status_notification status s ≡ ok tt t)
          × (t.outbox ≡ s.outbox)
          × Outcome (diagnostics_status status) s t
    unfolding diagnostics_status_notification set_diagnostics_status
    diagnostics_status_notification_lem status s =
        elim (Option-cases (
          c.client.update (is_station station)
            (λ r. record r { diagnostics_status = some (status_name (diagnostics_status status)) })
            s.stations)) [
              | inl e ↦
                  let (t, p, o, h) = report_progress-cases (diagnostics_status status) s in
                  (t, ground arith, o, h)
              | inr ((r, rows), e) ↦
                  let (t, p, o, h) =
                    report_progress-cases (diagnostics_status status)
                      (record s { stations = rows }) in
                  (t, ground arith, o, h)
            ]
