-- ===== src/Resources.antt =====
-- app/RBC/src/ressources.c and app/utility/src/const_chemins.c: the shared track resources, how the
-- trains lock and free them, and what that guarantees over any sequence of requests.
mod Tables
mod Masks
mod Requests
mod Effects
mod System
mod Exclusion
mod Leak
mod Place
mod Tests
unfoldable pub use Tables.*
unfoldable pub use Masks.*
unfoldable pub use Requests.*
pub use Place.*
pub use Effects.*
pub use System.*
pub use Exclusion.*
