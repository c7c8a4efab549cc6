-- ===== src/Wikidata.antt =====
-- The requests to Wikidata (backend/app/wikidata).
pub mod Throttle
mod Tests
