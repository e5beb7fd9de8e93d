-- ===== src/Host.antt =====
-- The host: how an actor's mailbox runs its operations, and how an actor's state is committed.
pub mod Admission
pub mod Runtime
pub mod Queues
