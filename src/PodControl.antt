-- ===== src/PodControl.antt =====
-- upstream/slurm-operator/internal/controller/nodeset/podcontrol/podcontrol.go: the pods and the
-- claims of a NodeSet.
pub mod Owners
pub mod Claims
pub mod Operations
pub mod Templates
pub mod Interface
