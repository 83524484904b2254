-- ===== src/Store.antt =====
-- prisma/schema.prisma and src/infrastructure/prisma: the tables that the services read and write,
-- the queue, and the effects of a request: a state that stays as it is where an exception is thrown.
pub mod Tables
pub mod Effects
pub mod Keeps
pub mod Rows
