-- ===== src/Entities/Edits.antt =====
-- What a user changes of one name or of several (backend/app/entities/authority.py).
mod Own
mod Claims
mod Bulk
unfoldable pub use Own.*
unfoldable pub use Claims.*
unfoldable pub use Bulk.*
