-- ===== src/Web.antt =====
-- web: the browser application over the HTTP routes. What React does with the state of a page is
-- taken as it documents: a press runs its handler, and a button that is disabled cannot be pressed.
pub mod Client
pub mod ScanPage
pub mod WalletPage
