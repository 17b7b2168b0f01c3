-- ===== src/Lib.antt =====
-- The charging-station core of pvpentech: chargers talk OCPP 1.6 over web sockets, a handler for
-- each action changes the database, and every change that the portal must hear of is written to an
-- outbox in the same transaction and published from there.
--
-- The parts, and what models them (paths from the repository's root):
--   Value, Frame        frames as JSON values, their parser and serializers:
--                       packages/core/src/ocpp/messageParser.ts
--   Schema              required fields: ocpp/schemaValidator.ts
--   Router              one frame from a charger to its reply: ocpp/messageRouter.ts. The handlers
--                       are a parameter of it; what it does outside is a list of effects.
--   Connections         the socket of each station: ocpp/connectionManager.ts, and forceDisconnect
--                       of ocpp/gateway.impl.ts
--   Server              the events of a socket: ocpp/server.ts
--   Database            rows (prisma/schema.prisma), events (packages/shared/src/types/events.ts),
--                       the Prisma client as a record of operations with its laws, the monad of
--                       handlers, and a client over lists in memory
--   Transactions        ocpp/handlers/startTransaction.handler.ts, stopTransaction.handler.ts and
--                       meterValues.handler.ts, outbox/outboxWriter.ts, and
--                       jobs/processors/sessionTimeout.processor.ts
--   Stations            the handlers bootNotification, heartbeat, statusNotification, authorize,
--                       diagnosticsStatusNotification and firmwareStatusNotification
--   DataTransfer        the vendors' registry: ocpp/handlers/dataTransfer.handler.ts
--   Relay               outbox/outboxRelay.ts and outbox/streamPublisher.ts
--   Commands            ocpp/commands/_sender.ts and the cleanups of
--                       services/ocppCommandResult.service.ts
--   Pending             ocpp/pendingRequests.ts, one call after another and in any run
--   Auth                the authentication of a charger: packages/shared/src/utils/auth.ts, and the
--                       upgrade in ocpp/server.ts
--   Services            the administration: an outcome is a result or an error with its kind. Provision
--                       and Registration are services/provision.service.ts, Stations is
--                       station.service.ts, Firmwares firmware.service.ts with the files on the disk,
--                       Campaigns firmwareCampaign.service.ts, Manufacturers manufacturer.service.ts
--                       and middlewares/manufacturerAuth.middleware.ts, and ChargerAuth chargerAuth of
--                       controllers/provision.controller.ts
--   InternalApi         the calls of the portal: internal-api/idempotency.middleware.ts,
--                       auth.middleware.ts (Access), routes/sessions.routes.ts and
--                       routes/commands.routes.ts
--   Examples            a small system on which each result is applied
--
-- How they interact: Server registers a socket in Connections and gives each frame to the router,
-- which calls a handler; handlers work on Db, the tables, through Client; write_outbox adds a row
-- that Relay publishes. A handler is a function from the state to a result or an exception, with
-- the state that is left; `transact` gives back the state of before when its body throws. The
-- services work on the same Db; ChargerAuth asks Manufacturers and then Provision, whose password is
-- what Auth asks for when the charger connects; Campaigns and InternalApi send their commands through
-- Commands.
--
-- Parameters, which stand for code that is not in the repository: Client (Prisma: each call may be
-- rejected; a call that succeeds obeys IsClient, and IsWorking says that no query is rejected, and
-- no update or deletion of rows that are there; whether a new row is taken, which may break a
-- constraint of the schema, is always open), Json, Broker (Redis), Doubles (arithmetic of IEEE
-- 754), Texts (toLowerCase, trim, slice), Secrets (base64, bcrypt), Context (the clock, dates,
-- uuid, the job queue), Wire (whether a socket takes a frame), Issuer and Tokens (random
-- passwords, bcrypt), Storage (the file system, SHA-256), Redis (of the idempotency keys), Line
-- (the sockets, a command's uuid and what its promise comes to), Lines and Conversions (split,
-- trim, Number). A time is a number of milliseconds, a JSON number is a natural number, a payload
-- of a handler is the record that the source casts it to, but an entry of meter values may lack
-- its samples, and a JSON value has a text (no object has a toString of its own). A difference
-- that the source keeps at 0 by Math.max is the subtraction of natural numbers. The only fuel is
-- that of `decimal`, the digits of a number, where the number itself is enough, as each step takes
-- a digit off; every other loop of the source runs over a list.
--
-- Not modelled: the lists for display, the HTTP routes that hand a body to a service, diagnostics,
-- configuration and identification tokens of the internal API, logging, the payloads of
-- commands with their records, and interleavings of two handlers or of two requests.
pub mod Common
pub mod Value
pub mod Frame
pub mod Schema
pub mod Router
pub mod Connections
pub mod Database
pub mod Transactions
pub mod Stations
pub mod Pending
pub mod Auth
pub mod Relay
pub mod Commands
pub mod DataTransfer
pub mod Server
pub mod Services
pub mod InternalApi
pub mod Examples
