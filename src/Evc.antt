-- ===== src/Evc.antt =====
-- app/EVC/src and app/MissionSupervisor/src: the on-board computer of a train, and the program that
-- sends it missions.
mod Missions
mod Speed
mod Loop
mod Thresholds
mod Requests
mod Position
mod Bytes
mod Drive
mod Tours
mod Supervisor
mod Dialogue
mod Wiring
mod Flags
mod Startup
mod Connection
mod Launch
mod Reports
mod Authorities
mod Standstill
mod History
mod Tests
mod TenthsMath
mod Samples
mod LoopTests
mod TrainTests
mod ThreadTests
mod ReportTests
mod AuthorityTests
unfoldable pub use Missions.*
