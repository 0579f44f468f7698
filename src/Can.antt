-- ===== src/Can.antt =====
-- app/utility/src/can.c and app/utility/src/can_infra.c: frames on the CAN bus and the switches.
mod Frames
mod Switches
mod Orders
mod Tests
unfoldable pub use Frames.*
unfoldable pub use Switches.*
pub use Orders.*
