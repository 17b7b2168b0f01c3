-- ===== src/Stations/Firmware.antt =====
-- packages/core/src/ocpp/handlers/firmwareStatusNotification.handler.ts
pub mod Laws
use Prim.Native.String
use pvpentech_core.Common.{
  ℕ, zero, suc, ◌==◌, ◌&&◌, not, String, Bool, true, false, List, [], ◌∷◌, Option, none, some,
  str_eq, any, if◌then◌else◌,
}
use pvpentech_core.Database.Rows.{
  Progress, ProgressStatus, queued, sent, downloading, downloaded, installing, installed, failed,
  send_error, Station, Campaign, CampaignStatus,
}
use pvpentech_core.Database.Events.{firmware_status_changed, station}
use pvpentech_core.Database.Monad.{
  Db, Context, Run, M, ok, threw, pure, ◌>>=◌, ◌>>◌, ignore, transact, asks, gives,
}
use pvpentech_core.Transactions.Start.{is_station}
use pvpentech_core.Transactions.Outbox.{write_outbox}

-- `VALID_STATUSES`
abbrev valid_statuses : List String
valid_statuses =
    "Idle" ∷ "Downloaded" ∷ "DownloadFailed" ∷ "Downloading" ∷ "InstallationFailed" ∷ "Installing"
    ∷ "Installed" ∷ []

abbrev pub normalized : String → String
normalized status = if any (str_eq status) valid_statuses then status else "Idle"

-- `STATUS_MAP`; `none` for Idle.
abbrev pub mapped_status : String → Option ProgressStatus
mapped_status status =
    if str_eq status "Downloading"
    then some downloading
    else if str_eq status "Downloaded"
    then some downloaded
    else if str_eq status "Installing"
    then some installing
    else if str_eq status "Installed"
    then some installed
    else if str_eq status "DownloadFailed"
    then some failed
    else if str_eq status "InstallationFailed"
    then some failed
    else none

-- `FINAL_STATUSES`
abbrev pub is_final : ProgressStatus → Bool
is_final installed = true
is_final failed = true
is_final _ = false

abbrev is_failed : ProgressStatus → Bool
is_failed failed = true
is_failed _ = false

-- `status: { in: ['sent', 'downloading', 'downloaded', 'installing'] }`
abbrev is_in_progress : ProgressStatus → Bool
is_in_progress sent = true
is_in_progress downloading = true
is_in_progress downloaded = true
is_in_progress installing = true
is_in_progress _ = false

-- `status: { notIn: ['installed', 'failed', 'send_error'] }`
abbrev pub is_unfinished : ProgressStatus → Bool
is_unfinished installed = false
is_unfinished failed = false
is_unfinished send_error = false
is_unfinished _ = true

abbrev is_this_station : String → Option String → Bool
is_this_station station_id none = false
is_this_station station_id (some id) = str_eq id station_id

abbrev pub remains_in : ℕ → Progress → Bool
remains_in campaign r = r.campaign_id == campaign && is_unfinished r.status

abbrev pub has_progress_id : ℕ → Progress → Bool
has_progress_id id r = r.id == id

abbrev pub has_campaign_id : ℕ → Campaign → Bool
has_campaign_id id r = r.id == id

abbrev updated_at : Progress → ℕ
updated_at r = r.updated_at

module _ (c : Context) (station_id : String) where
  -- The body of the `$transaction`; the update's own error is caught.
  tell_firmware : String → M (Unit {0})
  tell_firmware status = do
    ignore (λ s.
        gives
          (c.client.update (is_station station_id) (λ r. record r { firmware_status = some status })
            s.stations)
          (λ t. record s { stations = t }) s)
    write_outbox c (firmware_status_changed station_id status) (station station_id)
    pure tt

  abbrev pub is_open_progress : Progress → Bool
  is_open_progress r = is_this_station station_id r.station_id && is_in_progress r.status

  abbrev pub report_progress : String → ProgressStatus → Progress → Progress
  report_progress status mapped r = record r {
    status = mapped;
    completed_at = if is_final mapped then some c.now else none;
    error = if is_failed mapped then some (String.◌++◌ "OCPP status: " status) else none;
    updated_at = c.now;
  }

  abbrev pub complete_campaign : Campaign → Campaign
  complete_campaign r = record r { status = CampaignStatus.completed; completed_at = some c.now }

  -- The campaign is completed when nothing of it remains.
  finish_if_none : ℕ → Option ℕ → M (Unit {0})
  finish_if_none campaign (some zero) s =
      ignore
        (λ s.
          gives (c.client.update (has_campaign_id campaign) complete_campaign s.campaigns)
            (λ t. record s { campaigns = t }) s)
        s
  finish_if_none campaign _ s = ok tt s

  finish_campaign : ℕ → M (Unit {0})
  unfolding finish_if_none
  finish_campaign campaign s =
      finish_if_none campaign (c.client.count (remains_in campaign) s.progress) s

  save_progress : String → ProgressStatus → Progress → M Progress
  save_progress status mapped r s =
      gives (c.client.update (has_progress_id r.id) (report_progress status mapped) s.progress)
        (λ t. record s { progress = t }) s

  update_progress : String → ProgressStatus → Option Progress → M (Unit {0})
  unfolding save_progress finish_campaign
  update_progress status mapped none = pure tt
  update_progress status mapped (some r) = do
    ignore (save_progress status mapped r)
    (if is_final mapped then finish_campaign r.campaign_id else pure tt)

  abbrev found_progress : Option (Option Progress) → Option Progress
  found_progress none = none
  found_progress (some r) = r

  follow_campaign : String → Option ProgressStatus → M (Unit {0})
  unfolding update_progress
  follow_campaign status none s = ok tt s
  follow_campaign status (some mapped) s =
      update_progress status mapped
        (found_progress (c.client.find_latest is_open_progress updated_at s.progress)) s

  pub firmware_status_notification : String → M (Unit {0})
  unfolding tell_firmware follow_campaign
  firmware_status_notification status = do
    ignore (transact (tell_firmware (normalized status)))
    follow_campaign (normalized status) (mapped_status (normalized status))
