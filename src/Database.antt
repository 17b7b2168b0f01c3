-- ===== src/Database.antt =====
-- The data that the handlers work on: the tables of prisma/schema.prisma and the events of
-- packages/shared/src/types/events.ts, the Prisma client as a parameter, and the monad of code
-- that calls it and may throw.
pub mod Rows
pub mod Events
pub mod Client
pub mod Monad
pub mod Memory
