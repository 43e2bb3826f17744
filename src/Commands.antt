-- ===== src/Commands.antt =====
-- internal/commands: the durable command queue and the workers that drain it.
pub mod Command
pub mod Queue
pub mod Worker
