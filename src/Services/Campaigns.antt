-- ===== src/Services/Campaigns.antt =====
-- packages/core/src/services/firmwareCampaign.service.ts: one firmware image for many chargers.
pub mod Dispatch
use pvpentech_core.Common.{
  ℕ, zero, suc, ◌==◌, ◌&&◌, ◌||◌, not, String, Bool, true, false, List, [], ◌∷◌, Option, none, some,
  str_eq, is_some, map, if◌then◌else◌,
}
use pvpentech_core.Commands.{Settlement, answered, failed, Texts, begin_command, finish_command}
use pvpentech_core.Database.Rows.{
  Station, Progress, ProgressStatus, queued, sent, send_error, Campaign, CampaignStatus,
  TargetFilter,
}
use pvpentech_core.Database.Monad.{Db, Context, Run, M, ok, threw, ignore, puts}
use pvpentech_core.Services.{
  set_number, Failure, not_found, conflict, bad_request, database, Outcome, done, refused, Service,
  give, refuse, ◌>>=◌, ◌>>◌, atomically, reads, writes, answers,
}
use pvpentech_core.Services.Firmwares.{find_by_id}
use pvpentech_core.Services.Stations.{same_station}

-- A text that is empty counts as none.
abbrev set_text : Option String → Option String
set_text none = none
set_text (some a) = if str_eq a "" then none else some a

abbrev equals_text : Option String → Option String → Bool
equals_text none _ = true
equals_text (some a) none = false
equals_text (some a) (some b) = str_eq a b

abbrev equals_number : Option ℕ → Option ℕ → Bool
equals_number none _ = true
equals_number (some a) none = false
equals_number (some a) (some b) = a == b

-- The query that the model, the vendor and the site make together.
abbrev pub is_target : TargetFilter → Station → Bool
is_target f r =
    equals_text (set_text f.model) r.model_name
    && (equals_text (set_text f.vendor) r.vendor_name
        || equals_text (set_text f.vendor) r.manufacturer)
    && equals_number (set_number f.site_id) r.site_id

abbrev pub is_empty_filter : TargetFilter → Bool
is_empty_filter f =
    not (is_some (set_text f.model))
    && not (is_some (set_text f.vendor))
    && not (is_some (set_number f.site_id))

abbrev pub has_campaign : ℕ → Campaign → Bool
has_campaign id r = r.id == id

abbrev pub is_running : CampaignStatus → Bool
is_running CampaignStatus.running = true
is_running _ = false

-- The rows of a campaign for a station.
abbrev pub is_part : ℕ → String → Progress → Bool
is_part campaign station r = r.campaign_id == campaign && same_station station r.station_id

module _ (c : Context) where
  abbrev query_targets : TargetFilter → Service (List String)
  query_targets f = do
    rows ← λ s. reads (c.client.find_many (is_target f) s.stations) s
    give (map (λ r. r.id) rows)

  unfoldable pub resolve_targets : TargetFilter → Service (List String)
  resolve_targets f = elim f.station_ids [
    | id ∷ ids ↦ give (id ∷ ids)
    | [] ↦
        if is_empty_filter f
        then refuse (bad_request "firmwareCampaign:emptyFilter")
        else query_targets f
  ]

  abbrev pub new_campaign : ℕ → TargetFilter → String → Option String → ℕ → Campaign
  new_campaign firmware f started_by notes id = record {
    id = id;
    firmware_id = firmware;
    target_filter = f;
    status = CampaignStatus.running;
    started_by = started_by;
    completed_at = none;
    notes = notes;
  }

  abbrev pub new_progress : ℕ → String → ℕ → Progress
  new_progress campaign station id = record {
    id = id;
    campaign_id = campaign;
    station_id = some station;
    status = queued;
    started_at = none;
    completed_at = none;
    error = none;
    updated_at = c.now;
  }

  -- The body of the `$transaction`.
  create_campaign : ℕ → TargetFilter → String → Option String → List String → Service Campaign
  create_campaign firmware f started_by notes targets = do
    campaign ← λ s.
        answers (c.client.create (λ r. r.id) (new_campaign firmware f started_by notes) s.campaigns)
          (λ t. record s { campaigns = t }) s
    λ s.
        writes
          (c.client.create_rows (λ r. r.id) (map (new_progress campaign.id) targets) s.progress)
          (λ t. record s { progress = t }) s
    give campaign

  create_for :
      ℕ → TargetFilter → String → Option String → List String → Service (Campaign × List String)
  unfolding create_campaign
  create_for firmware f started_by notes [] = refuse (bad_request "firmwareCampaign:noTargets")
  create_for firmware f started_by notes (id ∷ ids) = do
    campaign ← atomically (create_campaign firmware f started_by notes (id ∷ ids))
    give (campaign, id ∷ ids)

  -- `start`, up to the call of `dispatchAll`, which it does not wait for.
  pub start : ℕ → TargetFilter → String → Option String → Service (Campaign × List String)
  unfolding resolve_targets create_for find_by_id
  start firmware f started_by notes = do
    fw ← find_by_id c firmware
    (if fw.is_active then give tt else refuse (conflict "firmware:inactive"))
    targets ← resolve_targets f
    create_for firmware f started_by notes targets

  pub find_campaign : ℕ → Service Campaign
  find_campaign id = do
    found ← λ s. reads (c.client.find_first (has_campaign id) s.campaigns) s
    elim found [ none ↦ refuse (not_found "firmwareCampaign:notFound") | some r ↦ give r ]

  abbrev pub cancelled : Campaign → Campaign
  cancelled r = record r { status = CampaignStatus.cancelled; completed_at = some c.now }

  pub cancel : ℕ → Service Campaign
  unfolding find_campaign
  cancel id = do
    campaign ← find_campaign id
    (if is_running campaign.status
        then give tt
        else refuse (conflict "firmwareCampaign:notRunning"))
    λ s.
        answers (c.client.update (has_campaign id) cancelled s.campaigns)
          (λ t. record s { campaigns = t }) s

  -- `dispatchAll`: which stations are connected, the message id of each command, and what its promise
  -- comes to.
  module _ (x : Texts) (connected : String → Bool) (message_id : String → String)
      (answer : String → Settlement) (campaign : ℕ) (started_by : String) where
    abbrev pub mark_sent : Progress → Progress
    mark_sent r = record r { status = sent; started_at = some c.now; updated_at = c.now }

    abbrev pub mark_error : String → Progress → Progress
    mark_error message r = record r {
      status = send_error;
      error = some message;
      started_at = some c.now;
      completed_at = some c.now;
      updated_at = c.now;
    }

    -- `updateMany`, whose error is caught.
    set_progress : String → (Progress → Progress) → M (Unit {0})
    set_progress station f = ignore (λ s.
        puts (c.client.update_many (is_part campaign station) f s.progress)
          (λ t. record s { progress = t }) s)

    abbrev error_text : Settlement → String
    error_text (answered status) = ""
    error_text (failed message) = message

    -- `ocppGateway.updateFirmware`
    update_firmware : String → Db → Run (Unit {0})
    update_firmware station s =
        elim (begin_command c x station "UpdateFirmware" (message_id station) true (some started_by)
          s) [
            | ok _ t ↦
                finish_command c x station "UpdateFirmware" (message_id station) (answer station) t
            | threw t ↦ threw t
          ]

    dispatch_sent : String → Run (Unit {0}) → Run (Unit {0})
    unfolding set_progress
    dispatch_sent station (ok _ t) = set_progress station mark_sent t
    dispatch_sent station (threw t) =
        set_progress station (mark_error (x.cut 500 (error_text (answer station)))) t

    dispatch_one : String → M (Unit {0})
    unfolding dispatch_sent update_firmware
    dispatch_one station s =
        if connected station
        then dispatch_sent station (update_firmware station s)
        else set_progress station (mark_error "station offline") s

    pub dispatch_all : List String → Db → Db
    unfolding dispatch_one
    dispatch_all [] s = s
    dispatch_all (station ∷ stations) s = elim (dispatch_one station s) [
      | ok _ t ↦ dispatch_all stations t
      | threw t ↦ t
    ]
