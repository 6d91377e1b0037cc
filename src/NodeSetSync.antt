-- ===== src/NodeSetSync.antt =====
-- upstream/slurm-operator/internal/controller/nodeset: the reconciler of NodeSets
-- (nodeset_controller.go, nodeset_sync.go, nodeset_sync_status.go and nodeset_history.go).
pub mod Reconciler
pub mod Cordon
pub mod ScaleOut
pub mod ScaleIn
pub mod Update
pub mod Process
pub mod Status
pub mod History
pub mod Patch
pub mod Sync
