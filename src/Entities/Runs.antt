-- ===== src/Entities/Runs.antt =====
-- The runs that carry a merge, a split or a rename through the articles
-- (backend/app/entities/authority.py).
mod Rows
mod Batches
unfoldable pub use Rows.*
unfoldable pub use Batches.*
