-- ===== src/Search.antt =====
-- backend/app/search: the deliveries that keep the search index up to date.
pub mod Deliveries
pub mod Fresh
pub mod Requests
pub mod Runs
pub mod Refreshes
pub mod Tests
