-- ===== src/Track.antt =====
-- app/utility/src/map.c: the track, its routes, and the distance along a route.
mod Tables
mod Distance
mod Route
mod Total
mod Tests
unfoldable pub use Tables.*
unfoldable pub use Distance.*
pub use Route.*
pub use Total.*
