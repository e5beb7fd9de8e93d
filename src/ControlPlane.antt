-- ===== src/ControlPlane.antt =====
-- The control plane: the groups of replicas that it provisions.
pub mod Groups
