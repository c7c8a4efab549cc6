-- ===== src/Clustering.antt =====
-- Story clustering (backend/app/clustering).
pub mod Numbers
pub mod Features
pub mod Fixed
pub mod Wording
pub mod Scoring
pub mod Ranking
pub mod Store
pub mod Assign
pub mod Queue
mod Tests
