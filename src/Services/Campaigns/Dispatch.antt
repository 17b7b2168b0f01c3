-- ===== src/Services/Campaigns/Dispatch.antt =====
-- What the dispatch of a campaign leaves of its rows.
use pvpentech_core.Common.{
  ℕ, ◌≡◌, ◌⊎◌, inl, inr, refl, subst, sym, ap, ◌∙◌, ◌&&◌, ◌||◌, not, String, Bool, true, false,
  List, [], ◌∷◌, Option, none, some, arith, All, any, change, str_eq_iff, Bool-cases, Option-cases,
  if◌then◌else◌,
}
use pvpentech_core.Commands.{Settlement, answered, failed, Texts, finish_command}
use pvpentech_core.Commands.Finish.{RecordsWhole, finish_command-atomic, begin_command-sends}
use pvpentech_core.Database.Rows.{Progress, ProgressStatus, sent, send_error}
use pvpentech_core.Database.Client.{IsClient, IsWorking}
use pvpentech_core.Database.Monad.{Db, Context, Run, ok, threw}
use pvpentech_core.Services.Campaigns.{
  is_part, mark_sent, mark_error, set_progress, update_firmware, dispatch_sent, dispatch_one,
  dispatch_all,
}

module _ (c : Context) (l : IsClient c.client) (works : IsWorking c.client) (x : Texts)
    (connected : String → Bool) (message_id : String → String) (answer : String → Settlement)
    (campaign : ℕ) (started_by : String) where
  -- A station that is connected and answers the command has been sent it.
  abbrev pub is_told : String → Bool
  is_told station =
      connected station && elim (answer station) [ answered _ ↦ true | failed _ ↦ false ]

  abbrev pub says : Bool → ProgressStatus → Bool
  says true sent = true
  says false send_error = true
  says _ _ = false

  -- A row of the campaign for the station whose status is not what happened.
  abbrev pub is_wrong : String → Progress → Bool
  is_wrong station r = is_part campaign station r && not (says (is_told station) r.status)

  abbrev mark_of : String → Progress → Progress
  mark_of station =
      if connected station
      then elim (answer station) [
        | answered status ↦ mark_sent c x connected message_id answer campaign started_by
        | failed message ↦
            mark_error c x connected message_id answer campaign started_by (x.cut 500 message)
      ]
      else mark_error c x connected message_id answer campaign started_by "station offline"

  mark_of-right :
      (station : String) (r : Progress) → says (is_told station) (mark_of station r).status ≡ true
  mark_of-right station r = ground arith

  mark_of-part :
      (station a : String) (r : Progress)
      → is_part campaign a (mark_of station r) ≡ is_part campaign a r
  mark_of-part station a r = ground arith

  set_progress-works :
      (station : String) (f : Progress → Progress) (s : Db)
      → set_progress c x connected message_id answer campaign started_by station f s
        ≡ ok tt (record s { progress = change (is_part campaign station) f s.progress })
  unfolding set_progress
  set_progress-works station f s =
      elim (Option-cases (c.client.update_many (is_part campaign station) f s.progress)) [
        | inl e ↦ absurd (works.updates_many (is_part campaign station) f s.progress e)
        | inr (t, e) ↦
            let shape = l.update_many_lem (is_part campaign station) f s.progress t e in
            rw (← shape) (ground arith)
      ]

  Settlement-cases :
      (a : Settlement)
      → ((status : Option String) × (a ≡ answered status))
        ⊎ ((message : String) × (a ≡ failed message))
  Settlement-cases (answered status) = inl (status, refl)
  Settlement-cases (failed message) = inr (message, refl)

  -- The run of a command that was answered or not.
  abbrev ended : Settlement → Db → Run (Unit {0})
  ended (answered status) t = ok tt t
  ended (failed message) t = threw t

  progress_kept :
      (station : String) (a : Settlement) (s t : Db)
      → RecordsWhole c l x station "UpdateFirmware" (message_id station) a s t
      → t.progress ≡ s.progress
  progress_kept station a s t (inl e) = ap (λ u. u.progress) e
  progress_kept station a s t (inr recorded) = recorded.progress

  finish_command-kept :
      (station : String) (a : Settlement) (s : Db)
      → (t : Db) × (finish_command c x station "UpdateFirmware" (message_id station) a s
          ≡ ended a t)
        × (t.progress ≡ s.progress)
  finish_command-kept station (answered status) s =
      let (t, e, whole) =
        (finish_command-atomic c l x station "UpdateFirmware" (message_id station) status "" s).0 in
      (t, e, progress_kept station (answered status) s t whole)
  finish_command-kept station (failed message) s =
      let (t, e, whole) =
        (finish_command-atomic c l x station "UpdateFirmware" (message_id station) none message
          s).1 in
      (t, e, progress_kept station (failed message) s t whole)

  -- The command touches no campaign, and throws just if the charger did not answer it.
  update_firmware-cases :
      (station : String) (s : Db)
      → (t : Db) × (update_firmware c x connected message_id answer campaign started_by station s
          ≡ ended (answer station) t)
        × (t.progress ≡ s.progress)
  unfolding update_firmware
  update_firmware-cases station s =
      let (u, begun, same, sessions) =
        begin_command-sends c l x station "UpdateFirmware" (message_id station) (some started_by)
          s in
      let (t, e, kept) = finish_command-kept station (answer station) u in
      (t, rw (begun, update_firmware) e, kept ∙ same)

  abbrev after : String → Db → Db
  after station s = record s {
    progress = change (is_part campaign station) (mark_of station) s.progress;
  }

  told-works :
      (station : String) (u : Db)
      → connected station ≡ true
      → dispatch_sent c x connected message_id answer campaign started_by station
          (ended (answer station) u)
        ≡ ok tt (after station u)
  unfolding dispatch_sent
  told-works station u on = elim (Settlement-cases (answer station)) [
    | inl (status, e) ↦ rw (on, e, dispatch_sent) (set_progress-works station _ u)
    | inr (message, e) ↦ rw (on, e, dispatch_sent, e) (set_progress-works station _ u)
  ]

  dispatch_one-works :
      (station : String) (s : Db)
      → (t : Db) × (dispatch_one c x connected message_id answer campaign started_by station s
          ≡ ok tt t)
        × (t.progress ≡ change (is_part campaign station) (mark_of station) s.progress)
  unfolding dispatch_one dispatch_sent
  dispatch_one-works station s =
      let (u, run, same) = update_firmware-cases station s in
      elim (Bool-cases (connected station)) [
        | inr off ↦ (after station s, rw off (set_progress-works station _ s), refl)
        | inl on ↦
            let send = dispatch_sent c x connected message_id answer campaign started_by station in
            let step : dispatch_one c x connected message_id answer campaign started_by station s
                ≡ send (
                    update_firmware c x connected message_id answer campaign started_by station s) =
              rw on refl in
            (after station u, step ∙ ap send run ∙ told-works station u on, rw same refl)
      ]

  -- After its turn a station's rows say what happened, and those of the others say what they said.
  wrong-own :
      (station : String) (t : List Progress)
      → any (is_wrong station) (change (is_part campaign station) (mark_of station) t) ≡ false
  wrong-own station [] = refl
  wrong-own station (r ∷ t) =
      ground (arith, wrong-own station t, mark_of-right station r, mark_of-part station station r)

  same_part :
      (a b : String) (r : Progress)
      → is_part campaign a r ≡ true
      → is_part campaign b r ≡ true
      → a ≡ b
  same_part a b r h k = elim (Option-cases r.station_id) [
    | inl e ↦ absurd (ground arith)
    | inr (id, e) ↦
        let left : id ≡ a = ground (arith, str_eq_iff id a) in
        let right : id ≡ b = ground (arith, str_eq_iff id b) in sym left ∙ right
  ]

  told_same :
      (a b : String) (r : Progress)
      → is_part campaign a r ≡ true
      → is_part campaign b r ≡ true
      → is_told a ≡ is_told b
  told_same a b r h k = ap is_told (same_part a b r h k)

  right_cons :
      (a : String) (r : Progress) (t : List Progress)
      → is_wrong a r ≡ false
      → any (is_wrong a) t ≡ false
      → any (is_wrong a) (r ∷ t) ≡ false
  right_cons a r t h k = rw (h, k) refl

  not_either : (a b : Bool) → (a || b) ≡ false → (a ≡ false) × (b ≡ false)
  not_either false b h = (refl, h)
  not_either true b h = absurd (cc)

  mark_of-not_wrong :
      (station a : String) (r : Progress)
      → is_part campaign station r ≡ true
      → is_wrong a (mark_of station r) ≡ false
  mark_of-not_wrong station a r e = elim (Bool-cases (is_part campaign a r)) [
    | inr k ↦ rw (mark_of-part station a r, k) refl
    | inl k ↦ rw (told_same a station r k e, mark_of-right station r) (ground arith)
  ]

  wrong-other :
      (station a : String) (t : List Progress)
      → any (is_wrong a) t ≡ false
      → any (is_wrong a) (change (is_part campaign station) (mark_of station) t) ≡ false
  wrong-other station a [] h = refl
  wrong-other station a (r ∷ t) h =
      let rest : any (is_wrong a) (change (is_part campaign station) (mark_of station) t) ≡ false =
        wrong-other station a t (not_either (is_wrong a r) (any (is_wrong a) t) h).1 in
      elim (Bool-cases (is_part campaign station r)) [
        | inl e ↦ rw e (right_cons a (mark_of station r) _ (mark_of-not_wrong station a r e) rest)
        | inr e ↦ rw e (right_cons a r _ (not_either (is_wrong a r) (any (is_wrong a) t) h).0 rest)
      ]

  dispatch_all-keeps :
      (stations : List String) (a : String) (s : Db)
      → any (is_wrong a) s.progress ≡ false
      → any
          (is_wrong a)
          (dispatch_all c x connected message_id answer campaign started_by stations s).progress
        ≡ false
  unfolding dispatch_all
  dispatch_all-keeps [] a s h = h
  dispatch_all-keeps (station ∷ stations) a s h =
      let (t, e, shape) = dispatch_one-works station s in
      rw (e, dispatch_all)
        (dispatch_all-keeps stations a t (rw shape (wrong-other station a s.progress h)))

  -- While the database answers, after the dispatch of a campaign each of its rows for a station that
  -- was to be updated says what happened, whichever stations are connected and answer: sent, if the
  -- station was connected and answered the command, and else a sending error; none is left waiting.
  pub dispatch_all-says :
      (stations : List String) (s : Db)
      → All
          (λ station.
            any
              (is_wrong station)
              (dispatch_all c x connected message_id answer campaign started_by stations s).progress
            ≡ false)
          stations
  unfolding dispatch_all
  dispatch_all-says [] s = tt
  dispatch_all-says (station ∷ stations) s =
      let (t, e, shape) = dispatch_one-works station s in
      let go = dispatch_all c x connected message_id answer campaign started_by in
      let step : go (station ∷ stations) s ≡ go stations t = rw (e, dispatch_all) refl in
      subst (λ u. All (λ a. any (is_wrong a) u.progress ≡ false) (station ∷ stations)) (sym step)
        (
          dispatch_all-keeps stations station t (rw shape (wrong-own station s.progress)),
          dispatch_all-says stations t,
        )
