-- ===== src/Tests.antt =====
-- Runs on concrete inputs, and the theorems at inputs that meet their hypotheses.
mod Command
mod Framing
mod Sample
mod Policy
mod Clients
mod Proxy
mod Security
mod Gateway
mod Replay
mod Inject
mod Storage
mod Tap
