-- ===== src/Database.antt =====
-- backend/src/prisma/prisma.service.ts: what the services rely on of the Prisma client, as a
-- parameter with its documented behaviour, and an in-memory table that has this behaviour.
mod Interface
mod Memory
pub use Interface.*
pub use Memory.{memory}
