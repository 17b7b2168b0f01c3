-- ===== src/Stations/Firmware/Laws.antt =====
-- What a firmware report leaves behind, whichever of its calls fail.
use pvpentech_core.Common.{
  ℕ, zero, suc, ◌≡◌, ◌⊎◌, inl, inr, refl, sym, subst, length, ◌++◌, String, Bool, false, List, [],
  ◌∷◌, Option, none, some, arith, any, keep, change, Bool-cases, Option-cases,
}
use pvpentech_core.Database.Rows.{Progress, ProgressStatus}
use pvpentech_core.Database.Events.{firmware_status_changed, station, OutboxRow}
use pvpentech_core.Database.Client.{IsClient}
use pvpentech_core.Database.Monad.{Db, Context, ok, ignore, transact}
use pvpentech_core.Transactions.Start.{is_station}
use pvpentech_core.Transactions.Outbox.Laws.{IsWritten, write_outbox-cases}
use pvpentech_core.Stations.Firmware.{
  normalized, mapped_status, remains_in, has_progress_id, has_campaign_id, tell_firmware,
  is_open_progress, report_progress, complete_campaign, finish_if_none, finish_campaign,
  save_progress, update_progress, follow_campaign, firmware_status_notification, updated_at,
  found_progress, is_final,
}

none_kept :
    {Row : Type 0} (p : Row → Bool) (t : List Row) → zero ≡ length (keep p t) → any p t ≡ false
none_kept p [] h = refl
none_kept p (x ∷ xs) h = ground (arith, none_kept p xs)

module _ (c : Context) (l : IsClient c.client) (station_id : String) where
  -- The campaigns are as they were, or one of which nothing remains is completed.
  abbrev pub CompletesOnly : Db → Db → Type 0
  CompletesOnly s t =
      (t.campaigns ≡ s.campaigns)
      ⊎ ((campaign : ℕ) × (any (remains_in campaign) t.progress ≡ false)
          × (t.campaigns
              ≡ change (has_campaign_id campaign) (complete_campaign c station_id) s.campaigns))

  finish_campaign-cases :
      (campaign : ℕ) (s : Db)
      → (t : Db) × (finish_campaign c station_id campaign s ≡ ok tt t)
        × (t.outbox ≡ s.outbox)
        × CompletesOnly s t
  unfolding finish_campaign finish_if_none
  finish_campaign-cases campaign s =
      elim (Option-cases (c.client.count (remains_in campaign) s.progress)) [
        | inl e ↦ (s, ground arith, refl, inl refl)
        | inr (suc n, e) ↦ (s, ground arith, refl, inl refl)
        | inr (zero, e) ↦
            elim (Option-cases (
              c.client.update (has_campaign_id campaign) (complete_campaign c station_id)
                s.campaigns)) [
                  | inl k ↦ (s, ground arith, refl, inl refl)
                  | inr ((r, rows), k) ↦
                      let (old, hit, became, shape) =
                        l.update_lem (has_campaign_id campaign) (complete_campaign c station_id)
                          s.campaigns rows r k in
                      (
                        record s { campaigns = rows },
                        ground arith,
                        refl,
                        inr (
                          campaign,
                          none_kept (remains_in campaign) s.progress
                              (l.count_lem (remains_in campaign) s.progress zero e),
                          shape,
                        ),
                      )
                ]
      ]

  update_progress-cases :
      (status : String) (mapped : ProgressStatus) (found : Option Progress) (s : Db)
      → (t : Db) × (update_progress c station_id status mapped found s ≡ ok tt t)
        × (t.outbox ≡ s.outbox)
        × CompletesOnly s t
  unfolding update_progress save_progress
  update_progress-cases status mapped none s = (s, refl, refl, inl refl)
  update_progress-cases status mapped (some r) s = elim (Bool-cases (is_final mapped)) [
    | inl f ↦
        elim (Option-cases (
          c.client.update (has_progress_id r.id) (report_progress c station_id status mapped)
            s.progress)) [
              | inl e ↦
                  let (t, p, o, h) = finish_campaign-cases r.campaign_id s in
                  (t, ground arith, o, h)
              | inr ((q, rows), e) ↦
                  let (t, p, o, h) =
                    finish_campaign-cases r.campaign_id (record s { progress = rows }) in
                  (t, ground arith, o, h)
            ]
    | inr f ↦
        elim (Option-cases (
          c.client.update (has_progress_id r.id) (report_progress c station_id status mapped)
            s.progress)) [
              | inl e ↦ (s, ground arith, refl, inl refl)
              | inr ((q, rows), e) ↦ (record s { progress = rows }, ground arith, refl, inl refl)
            ]
  ]

  follow_campaign-cases :
      (status : String) (mapped : Option ProgressStatus) (s : Db)
      → (t : Db) × (follow_campaign c station_id status mapped s ≡ ok tt t)
        × (t.outbox ≡ s.outbox)
        × CompletesOnly s t
  unfolding follow_campaign
  follow_campaign-cases status none s = (s, refl, refl, inl refl)
  follow_campaign-cases status (some mapped) s =
      update_progress-cases status mapped
        (found_progress c station_id
          (c.client.find_latest (is_open_progress c station_id) updated_at s.progress))
        s

  -- The outbox is as it was, or has grown by the one event that tells of the status.
  abbrev pub TellsOnce : String → Db → Db → Type 0
  TellsOnce status s t =
      (t.outbox ≡ s.outbox)
      ⊎ ((row : OutboxRow) × IsWritten (firmware_status_changed station_id status)
            (station station_id) row
          × (t.outbox ≡ s.outbox ++ row ∷ []))

  tell_firmware-cases :
      (status : String) (s : Db)
      → (t : Db) × (ignore (transact (tell_firmware c station_id status)) s ≡ ok tt t)
        × (t.campaigns ≡ s.campaigns)
        × TellsOnce status s t
  unfolding tell_firmware
  tell_firmware-cases status s =
      elim (Option-cases (
        c.client.update (is_station station_id) (λ r. record r { firmware_status = some status })
          s.stations)) [
            | inl e ↦
                elim (write_outbox-cases c l (firmware_status_changed station_id status)
                  (station station_id) s) [
                    | inl w ↦ (s, ground arith, refl, inl refl)
                    | inr (row, written, w) ↦ (
                      record s { outbox = s.outbox ++ row ∷ [] },
                      ground arith,
                      refl,
                      inr (row, written, refl),
                    )
                  ]
            | inr ((r, rows), e) ↦
                elim (write_outbox-cases c l (firmware_status_changed station_id status)
                  (station station_id) (record s { stations = rows })) [
                    | inl w ↦ (s, ground arith, refl, inl refl)
                    | inr (row, written, w) ↦ (
                      record s { stations = rows; outbox = s.outbox ++ row ∷ [] },
                      ground arith,
                      refl,
                      inr (row, written, refl),
                    )
                  ]
          ]

  -- Whichever calls of the client fail, the handler returns, writes at most the one event that
  -- tells of the status, and completes at most one campaign, of which no unfinished
  -- progress remains.
  pub firmware_status_notification_lem :
      (status : String) (s : Db)
      → (t : Db) × (firmware_status_notification c station_id status s ≡ ok tt t)
        × TellsOnce (normalized status) s t
        × CompletesOnly s t
  unfolding firmware_status_notification
  firmware_status_notification_lem status s =
      let n = normalized status in
      let (m, e, same, told) = tell_firmware-cases n s in
      let (t, k, o, done) = follow_campaign-cases n (mapped_status n) m in
      (
        t,
        ground arith,
        subst
            (λ o.
              (o ≡ s.outbox)
              ⊎ ((row : OutboxRow) × IsWritten (firmware_status_changed station_id n)
                    (station station_id) row
                  × (o ≡ s.outbox ++ row ∷ [])))
            (sym o) told,
        subst
            (λ o.
              (t.campaigns ≡ o)
              ⊎ ((campaign : ℕ) × (any (remains_in campaign) t.progress ≡ false)
                  × (t.campaigns
                      ≡ change (has_campaign_id campaign) (complete_campaign c station_id) o)))
            same done,
      )
