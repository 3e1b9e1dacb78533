-- ===== src/Tests.antt =====
-- The theorems at concrete inputs.
mod Data
mod Simulated
mod Store
mod Queue
mod Pipeline
mod Edge
mod Retry
mod Polling
mod Tokens
mod Vault
mod Grpc
mod Start
