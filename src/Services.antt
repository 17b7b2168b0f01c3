-- ===== src/Services.antt =====
-- The services of the administration, packages/core/src/services: their state is that of the
-- handlers, and an error carries its kind (packages/shared/src/errors/index.ts).
pub mod Provision
pub mod Registration
pub mod Stations
pub mod Firmwares
pub mod Campaigns
pub mod Manufacturers
pub mod ChargerAuth
use pvpentech_core.Common.{ℕ, suc, String, List, Option, none, some}
use pvpentech_core.Database.Monad.{Db}

-- The subclass of `AppError` with its message key, the error of a call of the client or of the file
-- system, or one of the internal API (packages/shared/src/errors/internalApiErrors.ts).
pub data Failure : Type 0 where
  not_found conflict forbidden bad_request : String → Failure
  database file_system : Failure
  station_not_found station_offline ocpp_timeout ocpp_rejected : Failure
  other_error : String → Failure

-- The end of a service's method, with the state that is left.
pub data Outcome (A : Type 0) : Type 0 where
  done : A → Db → Outcome A
  refused : Failure → Db → Outcome A

abbrev pub Service : Type 0 → Type 0
Service A = Db → Outcome A

abbrev pub give : {A : Type 0} → A → Service A
give a s = done a s

abbrev pub refuse : {A : Type 0} → Failure → Service A
refuse e s = refused e s

infixl 5 ◌>>=◌ ◌>>◌
abbrev pub ◌>>=◌ : {A : Type 0} {B : Type 0} (body : Service A) (after : A → Service B) → Service B
◌>>=◌ body after s = elim (body s) [ done a t ↦ after a t | refused e t ↦ refused e t ]

abbrev pub ◌>>◌ : {A : Type 0} {B : Type 0} (body : Service A) (after : Service B) → Service B
body >> after = body >>= λ _. after

-- `prisma.$transaction`
abbrev pub atomically : {A : Type 0} → Service A → Service A
atomically body s = elim (body s) [ done a t ↦ done a t | refused e _ ↦ refused e s ]

-- `.catch(() => {})`
abbrev pub attempt : {A : Type 0} → Service A → Service (Unit {0})
attempt body s = elim (body s) [ done _ t ↦ done tt t | refused _ t ↦ done tt t ]

abbrev pub state_after : {A : Type 0} → Outcome A → Db
state_after (done _ t) = t
state_after (refused _ t) = t

-- A call of the client that reads a table, gives it anew, or gives it anew and answers with a row.
abbrev pub reads : {A : Type 0} → Option A → Service A
reads none s = refused database s
reads (some a) s = done a s

abbrev pub writes : {T : Type 0} → Option T → (T → Db) → Service (Unit {0})
writes none set s = refused database s
writes (some t) set s = done tt (set t)

abbrev pub answers : {R T : Type 0} → Option (R × T) → (T → Db) → Service R
answers none set s = refused database s
answers (some (r, t)) set s = done r (set t)

-- A field of an update that is left out keeps the column.
abbrev pub over : {A : Type 0} → Option A → A → A
over none old = old
over (some new) old = new

abbrev pub over_null : Option String → Option String → Option String
over_null none old = old
over_null (some new) old = some new

-- A number that is 0 counts as none.
abbrev pub set_number : Option ℕ → Option ℕ
set_number (some (suc n)) = some (suc n)
set_number _ = none
