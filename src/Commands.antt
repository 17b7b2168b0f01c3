-- ===== src/Commands.antt =====
-- packages/core/src/ocpp/commands/_sender.ts and the two cleanups of
-- packages/core/src/services/ocppCommandResult.service.ts: a command to a charger and the record of
-- its result.
pub mod Finish
pub mod Sweep
use Prim.Native.String
use text.Mathlib.Text.{find?}
use pvpentech_core.Common.{
  ℕ, zero, suc, ◌-◌, ◌+◌, String, Bool, true, false, not, ◌&&◌, List, [], ◌∷◌, Option, none, some,
  is_some, str_eq, ltb, or_else, if◌then◌else◌,
}
use pvpentech_core.Database.Rows.{CommandResult, CommandStatus, completed, is_pending_command}
use pvpentech_core.Database.Events.{command_result_received, ocpp_command}
use pvpentech_core.Database.Monad.{
  Db, Context, Run, M, ok, threw, pure, ◌>>=◌, ◌>>◌, transact, ignore, asks, puts, gives,
}
use pvpentech_core.Transactions.Outbox.{write_outbox}

-- What the promise of `pendingRequests` comes to: a payload with its `status`, if that is a text, or
-- the message of an error.
pub data Settlement : Type 0 where
  answered : Option String → Settlement
  failed : String → Settlement

-- The text functions of the language that the source calls here.
pub record Texts : Type 0 where
  pub lower : String → String
  pub trim : String → String
  pub cut : ℕ → String → String

unfoldable pub is_timeout : Texts → String → Bool
is_timeout x message = is_some (find? (x.lower message) "timeout")

-- "code: description" is taken apart at its first colon, unless that is its first character.
abbrev split_code : Texts → String → Option ℕ → Option String × String
split_code x message none = (none, message)
split_code x message (some zero) = (none, message)
split_code x message (some (suc i)) = (
  some (x.trim (String.slice message 0 (suc i))),
  x.trim (String.slice message (suc i + 1) (String.len message)),
)

unfoldable pub error_parts : Texts → String → Option String × String
unfolding is_timeout
error_parts x message =
    if is_timeout x message then (none, message) else split_code x message (find? message ":")

unfoldable pub final_status : Texts → String → CommandStatus
unfolding is_timeout
final_status x message = if is_timeout x message then CommandStatus.timeout else CommandStatus.error

abbrev pub status_text : CommandStatus → String
status_text CommandStatus.pending = "pending"
status_text CommandStatus.completed = "completed"
status_text CommandStatus.error = "error"
status_text CommandStatus.timeout = "timeout"

abbrev pub is_command : String → CommandResult → Bool
is_command message_id r = str_eq r.message_id message_id

module _ (c : Context) (x : Texts) (station action message_id : String) where
  abbrev pub pending_row : Option String → CommandResult
  pending_row requested_by = record {
    message_id = message_id;
    station_id = some station;
    action = action;
    status = CommandStatus.pending;
    error_code = none;
    error_description = none;
    requested_by = requested_by;
    sent_at = c.now;
    received_at = none;
  }

  -- The part before the answer: a station that is not connected throws and records nothing; else
  -- the record is tried, and the command goes out even if that fails.
  pub begin_command : Bool → Option String → M (Unit {0})
  begin_command false requested_by s = threw s
  begin_command true requested_by s =
      ignore
        (λ s.
          gives (c.client.create (λ _. 0) (λ _. pending_row requested_by) s.commands)
            (λ t. record s { commands = t }) s)
        s

  abbrev pub complete : CommandResult → CommandResult
  complete r = record r { status = completed; received_at = some c.now }

  abbrev pub fail : String → CommandResult → CommandResult
  fail message r = record r {
    status = final_status x message;
    error_code = (error_parts x message).0;
    error_description = some (x.cut 500 (error_parts x message).1);
    received_at = some c.now;
  }

  -- The body of either `$transaction`: the record and its event.
  pub record_result : (CommandResult → CommandResult) → String → M (Unit {0})
  record_result f status = do
    λ s.
        gives (c.client.update (is_command message_id) f s.commands)
          (λ t. record s { commands = t }) s
    write_outbox c (command_result_received station message_id action status)
        (ocpp_command message_id)
    pure tt

  -- The part after the answer. What is recorded of an answer, and how.
  abbrev pub change_of : Settlement → CommandResult → CommandResult
  change_of (answered status) = complete
  change_of (failed message) = fail message

  abbrev pub told_status : Settlement → String
  told_status (answered status) = or_else status "Accepted"
  told_status (failed message) = status_text (final_status x message)

  -- The answer is returned, or the error thrown again, whether or not it could be recorded.
  abbrev give_back : Settlement → M (Unit {0})
  give_back (answered status) s = ok tt s
  give_back (failed message) s = threw s

  pub finish_command : Settlement → M (Unit {0})
  finish_command settlement = do
    ignore (transact (record_result (change_of settlement) (told_status settlement)))
    give_back settlement

-- `bootstrapCleanup` and `sweepStalePending`.
module _ (c : Context) where
  abbrev pub is_left : CommandResult → Bool
  is_left r = is_pending_command r.status

  abbrev pub give_up : String → CommandResult → CommandResult
  give_up reason r = record r {
    status = CommandStatus.timeout;
    error_description = some reason;
    received_at = some c.now;
  }

  pub bootstrap_cleanup : M (Unit {0})
  bootstrap_cleanup s =
      puts
        (c.client.update_many is_left
          (give_up "pending at server bootstrap (previous instance shutdown)") s.commands)
        (λ t. record s { commands = t }) s

  -- Pending, and sent before the cutoff: the response timeout and a minute ago.
  abbrev pub is_stale : ℕ → CommandResult → Bool
  is_stale timeout_ms r = is_left r && ltb (r.sent_at + timeout_ms + 60000) c.now

  pub sweep_stale_pending : ℕ → M (Unit {0})
  sweep_stale_pending timeout_ms s =
      puts
        (c.client.update_many (is_stale timeout_ms) (give_up "timeout detected by sweeper")
          s.commands)
        (λ t. record s { commands = t }) s
