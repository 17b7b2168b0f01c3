-- ===== src/Database/Monad.antt =====
-- The state that the handlers share, and the monad of code that calls the client and may throw.
use pvpentech_core.Common.{ℕ, String, List, Option, none, some}
use pvpentech_core.Database.Rows.{
  Station, Connector, Transaction, MeterValue, IdToken, FaultLog, OfflineLog, DiagnosticsRequest,
  Progress, Campaign, GoalType, CommandResult, Provisioning, StationIdSequence, Manufacturer,
  Firmware, OcppMessage, DeviceVariable, ChargerConfig,
}
use pvpentech_core.Database.Events.{OutboxRow}
use pvpentech_core.Database.Client.{Client}

-- A job of the charge-goal queue.
pub record GoalCheck : Type 0 where
  pub session_id : String
  pub goal_type : GoalType
  pub goal_value : ℕ
  pub unit_price_vnd : ℕ

pub record Db : Type 0 where
  pub stations : List Station
  pub connectors : List Connector
  pub transactions : List Transaction
  pub meter_values : List MeterValue
  pub id_tokens : List IdToken
  pub fault_logs : List FaultLog
  pub offline_logs : List OfflineLog
  pub diagnostics : List DiagnosticsRequest
  pub progress : List Progress
  pub campaigns : List Campaign
  pub commands : List CommandResult
  pub outbox : List OutboxRow
  pub goal_checks : List GoalCheck
  pub provisioning : List Provisioning
  pub sequences : List StationIdSequence
  pub manufacturers : List Manufacturer
  pub firmwares : List Firmware
  pub messages : List OcppMessage
  pub variables : List DeviceVariable
  pub configs : List ChargerConfig

-- The operations on doubles that the source's arithmetic stands for. A non-negative double is its
-- bit pattern, so that the order of the patterns is the order of the values.
pub record Doubles : Type 0 where
  pub of_ℕ : ℕ → ℕ
  pub sub : ℕ → ℕ → ℕ
  pub div : ℕ → ℕ → ℕ
  pub mul : ℕ → ℕ → ℕ
  pub max : ℕ → ℕ → ℕ
  pub round : ℕ → ℕ
  pub floor : ℕ → ℕ
  pub parse_float : String → ℕ

-- What surrounds one run of a handler: the client, the clock, the doubles, the texts of dates,
-- the identifiers that `uuid` and the session's name give, and the job queue.
pub record Context : Type 1 where
  pub client : Client
  pub doubles : Doubles
  pub now : ℕ
  pub date : String → ℕ
  pub uuid : List OutboxRow → String
  pub session_name : ℕ → String
  pub enqueue : GoalCheck → List GoalCheck → Option (List GoalCheck)
  pub heartbeat_interval : ℕ

-- The end of a run: a result or an exception, and the state that is left.
pub data Run (A : Type 0) : Type 0 where
  ok : A → Db → Run A
  threw : Db → Run A

abbrev pub M : Type 0 → Type 0
M A = Db → Run A

abbrev pub pure : {A : Type 0} → A → M A
pure a s = ok a s

infixl 5 ◌>>=◌ ◌>>◌
abbrev pub ◌>>=◌ : {A : Type 0} {B : Type 0} (first : M A) (rest : A → M B) → M B
◌>>=◌ m f s = elim (m s) [ ok a t ↦ f a t | threw t ↦ threw t ]

abbrev pub ◌>>◌ : {A B : Type 0} → M A → M B → M B
m >> k = m >>= λ _. k

-- `prisma.$transaction`: an exception leaves the state as it was before.
abbrev pub transact : {A : Type 0} → M A → M A
transact m s = elim (m s) [ ok a t ↦ ok a t | threw _ ↦ threw s ]

-- `.catch(() => {})`
abbrev pub ignore : {A : Type 0} → M A → M (Unit {0})
ignore m s = elim (m s) [ ok _ t ↦ ok tt t | threw t ↦ ok tt t ]

abbrev pub final : {A : Type 0} → Run A → Db
final (ok _ t) = t
final (threw t) = t

-- A call that reads a table.
abbrev pub asks : {A : Type 0} → Option A → M A
asks none s = threw s
asks (some a) s = ok a s

-- A call that gives a table anew.
abbrev pub puts : {T : Type 0} → Option T → (T → Db) → M (Unit {0})
puts none set s = threw s
puts (some t) set s = ok tt (set t)

-- A call that answers with a row too.
abbrev pub gives : {R T : Type 0} → Option (R × T) → (T → Db) → M R
gives none set s = threw s
gives (some (r, t)) set s = ok r (set t)
