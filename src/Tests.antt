-- ===== src/Tests.antt =====
-- Runs of the definitions on concrete inputs.
mod Documents
mod Replicas
mod Buckets
mod Recoveries
mod Hosts
mod Runtimes
mod Controls
mod Grants
mod Names
mod Takeovers
