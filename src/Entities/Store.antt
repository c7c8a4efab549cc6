-- ===== src/Entities/Store.antt =====
-- The tables of backend/app/entities/models.py and the lookups of entities/resolver.py.
mod Tables
mod Lookups
unfoldable pub use Tables.*
unfoldable pub use Lookups.*
