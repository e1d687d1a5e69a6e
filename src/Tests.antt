-- ===== src/Tests.antt =====
-- Runs at concrete data, over a small Windows, a list as a task queue and a list of nodes as a
-- state machine, and the theorems at concrete inputs.
mod Windows
mod Libraries
mod Decimal
mod Files
mod Tasks
mod Parameters
mod Threads
mod Start
mod Together
mod OneThread
mod Schedules
mod Flights
mod Whole
mod Skipping
mod Pending
mod Closing
