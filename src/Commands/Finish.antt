-- ===== src/Commands/Finish.antt =====
-- What the end of a command leaves behind, whichever calls fail.
use text.Mathlib.Text.{find?}
use pvpentech_core.Common.{
  ◌≡◌, ◌⊎◌, inl, inr, refl, subst, ◌∙◌, String, none, some, is_some, Bool-cases, if◌then◌else◌,
  true, List, [], ◌∷◌, ◌++◌, Option, arith, change, Option-cases,
}
use pvpentech_core.Database.Events.{OutboxRow, command_result_received, ocpp_command}
use pvpentech_core.Database.Rows.{CommandResult, CommandStatus, completed}
use pvpentech_core.Database.Client.{IsClient}
use pvpentech_core.Database.Monad.{Db, Context, ok, threw, transact}
use pvpentech_core.Transactions.Outbox.Laws.{IsWritten, write_outbox-cases}
use pvpentech_core.Commands.{
  Settlement, answered, failed, Texts, error_parts, final_status, is_timeout, is_command,
  record_result, change_of, told_status, finish_command, begin_command, pending_row,
}

module _ (c : Context) (l : IsClient c.client) (x : Texts)
    (station action message_id : String) where
  -- An answer completes the record. An error is a timeout if its message says so, and else an error
  -- with the code and the text of its message, of which 500 characters are kept.
  abbrev pub recorded : Settlement → CommandResult → CommandResult
  recorded (answered status) r = record r { status = completed; received_at = some c.now }
  recorded (failed message) r = record r {
    status =
        if is_some (find? (x.lower message) "timeout")
        then CommandStatus.timeout
        else CommandStatus.error;
    error_code = (error_parts x message).0;
    error_description = some (x.cut 500 (error_parts x message).1);
    received_at = some c.now;
  }

  -- The status that the event tells: the answer's own, or "Accepted" if it has none.
  abbrev pub told : Settlement → String
  told (answered none) = "Accepted"
  told (answered (some status)) = status
  told (failed message) = if is_some (find? (x.lower message) "timeout") then "timeout" else "error"

  told_same :
      (settlement : Settlement)
      → told_status c x station action message_id settlement ≡ told settlement
  unfolding final_status is_timeout
  told_same (answered none) = refl
  told_same (answered (some status)) = refl
  told_same (failed message) = elim (Bool-cases (is_some (find? (x.lower message) "timeout"))) [
    | inl e ↦ rw e refl
    | inr e ↦ rw e refl
  ]

  change_same :
      (settlement : Settlement) (t : List CommandResult)
      → change (is_command message_id) (change_of c x station action message_id settlement) t
        ≡ change (is_command message_id) (recorded settlement) t
  unfolding final_status is_timeout
  change_same (answered status) t = refl
  change_same (failed message) t = refl

  -- The command's record is changed as the answer says, and the one new event tells of it.
  pub record IsRecorded (settlement : Settlement) (s t : Db) : Type 0 where
    pub row : OutboxRow
    pub commands : t.commands ≡ change (is_command message_id) (recorded settlement) s.commands
    pub outbox : t.outbox ≡ s.outbox ++ row ∷ []
    pub progress : t.progress ≡ s.progress
    pub transactions : t.transactions ≡ s.transactions
    pub written :
        IsWritten
          (command_result_received station message_id action (told settlement))
          (ocpp_command message_id)
          row

  -- Nothing is recorded, or all of it.
  abbrev pub RecordsWhole : Settlement → Db → Db → Type 0
  RecordsWhole settlement s t = (t ≡ s) ⊎ IsRecorded settlement s t

  told-IsWritten :
      (settlement : Settlement) (row : OutboxRow)
      → IsWritten
          (command_result_received station message_id action
            (told_status c x station action message_id settlement))
          (ocpp_command message_id)
          row
      → IsWritten
          (command_result_received station message_id action (told settlement))
          (ocpp_command message_id)
          row
  told-IsWritten settlement row =
      subst
        (λ z.
          IsWritten (command_result_received station message_id action z) (ocpp_command message_id)
            row)
        (told_same settlement)

  record_result-cases :
      (settlement : Settlement) (s : Db)
      → (transact
            (record_result c x station action message_id
              (change_of c x station action message_id settlement)
              (told_status c x station action message_id settlement))
            s
          ≡ threw s)
        ⊎ ((t : Db) × (transact
                (record_result c x station action message_id
                  (change_of c x station action message_id settlement)
                  (told_status c x station action message_id settlement))
                s
              ≡ ok tt t)
            × IsRecorded settlement s t)
  unfolding record_result
  record_result-cases settlement s =
      elim (Option-cases (
        c.client.update (is_command message_id) (change_of c x station action message_id settlement)
          s.commands)) [
            | inl e ↦ inl (ground arith)
            | inr ((r, rows), e) ↦
                let (old, hit, became, shape) =
                  l.update_lem (is_command message_id)
                    (change_of c x station action message_id settlement) s.commands rows r e in
                elim (write_outbox-cases c l
                  (command_result_received station message_id action
                    (told_status c x station action message_id settlement))
                  (ocpp_command message_id) (record s { commands = rows })) [
                    | inl w ↦ inl (ground arith)
                    | inr (row, written, w) ↦ inr (
                      record s { commands = rows; outbox = s.outbox ++ row ∷ [] },
                      ground arith,
                      record {
                        row = row;
                        commands = shape ∙ change_same settlement s.commands;
                        outbox = refl;
                        progress = refl;
                        transactions = refl;
                        written = told-IsWritten settlement row written;
                      },
                    )
                  ]
          ]

  -- Whichever calls of the client fail, an answered command returns and a failed one throws, and
  -- what is left either is the state as it was, or the command's record is completed, or it has a
  -- timeout or an error with its text, and the outbox has grown by the one event that tells of it.
  pub finish_command-atomic :
      (status : Option String) (message : String) (s : Db)
      → ((t : Db) × (finish_command c x station action message_id (answered status) s ≡ ok tt t)
          × RecordsWhole (answered status) s t)
        × ((t : Db) × (finish_command c x station action message_id (failed message) s ≡ threw t)
            × RecordsWhole (failed message) s t)
  unfolding finish_command
  finish_command-atomic status message s = (
    elim (record_result-cases (answered status) s) [
      | inl e ↦ (s, ground arith, inl refl)
      | inr (t, e, written) ↦ (t, ground arith, inr written)
    ],
    elim (record_result-cases (failed message) s) [
      | inl e ↦ (s, ground arith, inl refl)
      | inr (t, e, written) ↦ (t, ground arith, inr written)
    ],
  )

  -- A command to a connected station goes out, whether or not it was recorded; this touches no
  -- campaign and no session.
  pub begin_command-sends :
      (requested_by : Option String) (s : Db)
      → (t : Db) × (begin_command c x station action message_id true requested_by s ≡ ok tt t)
        × (t.progress ≡ s.progress)
        × (t.transactions ≡ s.transactions)
  unfolding begin_command
  begin_command-sends requested_by s =
      elim (Option-cases (
        c.client.create (λ _. 0) (λ _. pending_row c x station action message_id requested_by)
          s.commands)) [
            | inl e ↦ (s, ground arith, refl, refl)
            | inr ((r, t), e) ↦ (record s { commands = t }, ground arith, refl, refl)
          ]
