-- ===== src/Scripts.antt =====
-- scripts: the command line tools of whoever runs the engine.
pub mod Operator
pub mod Reconcile
