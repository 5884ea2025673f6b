-- ===== src/Effect.antt =====
-- How the Go code's effects are written. A function that returns `(T, error)` and may call other
-- services is a `Go W T`: it takes the world and returns a result with the world after it, also
-- when it fails. `W` is the state of everything outside the repository, and is never looked
-- into. The calls that the program makes for their effect are logged beside it, latest first.
mod Calls
mod Monad
pub mod Fallible
pub mod Keeps
pub use Calls.*
unfoldable pub use Monad.*
