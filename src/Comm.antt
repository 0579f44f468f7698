-- ===== src/Comm.antt =====
-- app/utility/src/comm.c: the messages of the trains and the RBC, as text on the wire.
mod Numbers
mod Decimal
mod Messages
mod Tokens
mod RoundTrip
mod Tenths
mod Listener
mod Routing
mod Delivery
mod Tests
unfoldable pub use Numbers.*
unfoldable pub use Tenths.*
unfoldable pub use Messages.*
unfoldable pub use Listener.*
pub use Tokens.*
pub use RoundTrip.*
pub use Routing.*
pub use Delivery.*
pub use Decimal.*
