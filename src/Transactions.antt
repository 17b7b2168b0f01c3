-- ===== src/Transactions.antt =====
-- packages/core/src/ocpp/handlers/startTransaction.handler.ts, stopTransaction.handler.ts and
-- meterValues.handler.ts: the life of a charging session, with the writer of the outbox
-- (packages/core/src/outbox/outboxWriter.ts).
pub mod Outbox
pub mod Start
pub mod Meter
pub mod Stop
pub mod Timeout
