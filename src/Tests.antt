-- ===== src/Tests.antt =====
-- The theorems at concrete inputs, and runs of the definitions.
mod Deques
mod Kills
mod Lifetimes
mod Machine
mod Machines
mod Tasks
mod Pools
mod Flags
mod Basics
mod Managers
mod Properties
mod Pipes
mod Queues
mod Workers
mod Bitsets
mod Builders
mod Timers
mod Processes
