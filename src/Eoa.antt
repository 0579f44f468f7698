-- ===== src/Eoa.antt =====
-- app/RBC/src/eoa_calculator.c: how far a train may run.
mod Calculator
mod Nearest
mod Search
mod Limits
mod Cases
mod Safety
mod Tests
unfoldable pub use Calculator.*
pub use Limits.*
pub use Safety.*
