-- ===== src/Services/Stations/Removal.antt =====
-- When a station is deleted, and what goes with it.
use pvpentech_core.Common.{◌≡◌, ◌⊎◌, String, Bool, true, false, not, List, none, any, keep, change}
use pvpentech_core.Database.Rows.{Transaction}
use pvpentech_core.Database.Client.{IsClient, IsWorking, Finds}
use pvpentech_core.Database.Monad.{Db, Context}
use pvpentech_core.Services.{Failure, database, Outcome, done, refused, Service}
use pvpentech_core.Services.Stations.{
  no_station, active_session, has_history, session_of, connector_of, message_of, offline_log_of,
  fault_of, variable_of, config_of, diagnostics_of, progress_of, command_of, unlink_command,
  provisioning_of, unlink_progress, unlink_provisioning, runs_at,
}
use pvpentech_core.Transactions.Start.{is_station}

-- The rows that pass have gone, and the others are what is left.
pub record Without {Row : Type 0} (p : Row → Bool) (t t' : List Row) : Type 0 where
  pub gone : any p t' ≡ false
  pub others : t' ≡ keep (λ r. not (p r)) t

-- The rows that pass are there as they became, and pass no more.
pub record Unlinked {Row : Type 0} (p : Row → Bool) (f : Row → Row) (t t' : List Row) : Type 0 where
  pub gone : any p t' ≡ false
  pub all : t' ≡ change p f t

-- No table mentions the station any more; its registration, its part in firmware campaigns and the
-- records of its commands stay.
pub record IsRemoved (id : String) (s t : Db) : Type 0 where
  pub no_session : any (session_of id) s.transactions ≡ false
  pub transactions : t.transactions ≡ s.transactions
  pub stations : Without (is_station id) s.stations t.stations
  pub connectors : Without (connector_of id) s.connectors t.connectors
  pub messages : Without (message_of id) s.messages t.messages
  pub offline_logs : Without (offline_log_of id) s.offline_logs t.offline_logs
  pub fault_logs : Without (fault_of id) s.fault_logs t.fault_logs
  pub variables : Without (variable_of id) s.variables t.variables
  pub configs : Without (config_of id) s.configs t.configs
  pub diagnostics : Without (diagnostics_of id) s.diagnostics t.diagnostics
  pub progress :
      Unlinked (progress_of id) (λ r. record r { station_id = none }) s.progress t.progress
  pub provisioning :
      Unlinked
        (provisioning_of id)
        (λ r. record r { station_id = none })
        s.provisioning
        t.provisioning
  pub commands :
      Unlinked (command_of id) (λ r. record r { station_id = none }) s.commands t.commands

module _ (c : Context) (l : IsClient c.client) where
  pub data Refusal (id : String) (s : Db) : Failure → Type 1 where
    missing : any (is_station id) s.stations ≡ false → Refusal id s no_station
    busy : (r : Transaction) → Finds (runs_at id) r s.transactions → Refusal id s active_session
    used :
        any (runs_at id) s.transactions ≡ false
        → any (session_of id) s.transactions ≡ true
        → Refusal id s has_history
    rejected_call : ¬ IsWorking c.client → Refusal id s database

  -- A part of the cascade makes `s` to `t`, unless the database is not working.
  abbrev Makes : Service (Unit {0}) → Db → Db → Type 1
  Makes m s t = ((u : Db) × (m s ≡ refused database u) × ¬ IsWorking c.client) ⊎ (m s ≡ done tt t)

  abbrev removed : String → Db → Db
  removed id s = record s {
    messages = keep (λ r. not (message_of id r)) s.messages;
    offline_logs = keep (λ r. not (offline_log_of id r)) s.offline_logs;
    fault_logs = keep (λ r. not (fault_of id r)) s.fault_logs;
    variables = keep (λ r. not (variable_of id r)) s.variables;
    configs = keep (λ r. not (config_of id r)) s.configs;
    diagnostics = keep (λ r. not (diagnostics_of id r)) s.diagnostics;
    connectors = keep (λ r. not (connector_of id r)) s.connectors;
    progress = change (progress_of id) unlink_progress s.progress;
    provisioning = change (provisioning_of id) unlink_provisioning s.provisioning;
    stations = keep (λ r. not (is_station id r)) s.stations;
    commands = change (command_of id) unlink_command s.commands;
  }

  -- The two ends of a removal.
  abbrev pub Ends : String → Db → Outcome (Unit {0}) → Type 1
  Ends id s end =
      ((e : Failure) × (end ≡ refused e s) × Refusal id s e)
      ⊎ ((t : Db) × (end ≡ done tt t) × IsRemoved id s t)
