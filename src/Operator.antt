-- ===== src/Operator.antt =====
-- The operator's two programs, the manager and the webhook, and what joins the manager's controllers
-- (upstream/slurm-operator/cmd, and the set up of the controllers in
-- upstream/slurm-operator/internal/controller).
pub mod Runtime
pub mod Controllers
pub mod Manager
pub mod Webhook
pub mod Runs
pub mod Shared
