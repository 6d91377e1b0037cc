-- ===== src/Scenarios.antt =====
-- The theorems at concrete inputs: two pods of a NodeSet `ns/a` on a Slurm cluster, of which one is
-- running and ready, and a world that logs the calls made to it.
mod World
mod Pods
mod Slurm
mod Reconcile
mod Resources
mod Events
mod Registry
mod Rounds
mod Removals
mod Settled
mod Histories
mod Still
mod Programs
