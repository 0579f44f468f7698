-- ===== src/Rbc.antt =====
-- app/RBC/src/requests_handler.c: how the RBC answers the requests of the trains.
mod Handler
mod Outcomes
mod Moves
mod Replies
mod Cells
mod Sound
mod Answers
mod Refinement
mod Server
mod Tests
unfoldable pub use Handler.*
unfoldable pub use Server.*
pub use Sound.{IsPlaced, IsSound, init_trains-IsSound}
pub use Answers.{addressed, handle_request-stores}
pub use Outcomes.{IsEcho, Granted}
pub use Replies.{handle_request-Outcome}
