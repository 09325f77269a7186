-- ===== src/States.antt =====
-- The payment state machine of src/engine/states.ts.
mod Graph
mod Paths
pub use Graph.*
unfoldable pub use Graph.{can_transition, state_eq}
pub use Paths.*
