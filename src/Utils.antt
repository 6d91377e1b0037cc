-- ===== src/Utils.antt =====
-- upstream/slurm-operator/internal/utils: helpers that the controllers share.
pub mod Math
pub mod Batch
pub mod KeyedStore
pub mod TimeStore
pub mod Pods
