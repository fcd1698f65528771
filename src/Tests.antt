-- ===== src/Tests.antt =====
-- The theorems at concrete states, and runs of the definitions.
mod Sample
mod Queues
mod Pids
mod Timer
mod Signals
mod Keyboard
mod Memory
mod Machine
mod Turns
mod Ownership
mod Messages
mod Alarms
mod Requests
mod Rounds
