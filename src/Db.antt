-- ===== src/Db.antt =====
-- The state that the engine works on: the tables of src/db/schema.ts, the clock, and a record of
-- the calls made to the providers; and the monad of the engine's functions.
mod Tables
mod Monad
mod Effects
mod Laws
pub use Tables.*
pub use Monad.*
unfoldable pub use Monad.{
  pure, raise, gets, or_raise, modify, raise_if, ◌>>=◌, ◌>>◌, option_case, catch, transaction,
}
pub use Effects.*
pub use Laws.*
