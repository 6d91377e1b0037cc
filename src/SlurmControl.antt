-- ===== src/SlurmControl.antt =====
-- upstream/slurm-operator/internal/controller/nodeset/slurmcontrol/slurmcontrol.go: the Slurm nodes
-- behind the pods. The Slurm client is the parameter `SlurmClient`, over a state `S` that it shares
-- with all else outside the operator.
pub mod Nodes
pub mod Client
pub mod Drain
pub mod Status
pub mod Deadlines
pub mod Interface
