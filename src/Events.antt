-- ===== src/Events.antt =====
-- backend/app/events: the association of story clusters into events.
pub mod Scoring
pub mod Choice
pub mod Store
pub mod Facts
pub mod Decide
pub mod Laws
mod Tests
