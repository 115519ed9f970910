-- ===== src/Examples.antt =====
-- The theorems at concrete inputs.
mod Ipc
mod Server
mod Checkpoint
mod Client
mod Saver
mod Channel
mod Loop
mod Lifecycle
mod Calls
mod Worker
